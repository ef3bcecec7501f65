-- ===== src/Worker/Collector/Tally.antt =====
-- What a collector holds after a sequence of requests.
use go_sentinel.Base.{
  ℕ, zero, suc, ◌+◌, ◌≤◌, ◌<◌, String, List, [], ◌∷◌, ◌++◌, Bool, not, ◌&&◌, str_eq, ltb, ltb→lt,
  length, length-append, append_assoc, All, if◌then◌else◌, ◌≡◌, refl, sym, ◌∙◌, ap, arith,
  Bool-cases, inl, inr,
}
use go_sentinel.Base.Int.{
  ℤ, pos, ◌+ℤ◌, ◌-ℤ◌, ◌≤ℤ◌, wrap64, wrap64_id, +ℤ_pos, -ℤ_parts, half64, ltb_ℤ,
}
use go_sentinel.Base.Float.{Float64}
use go_sentinel.Store.Table.{limit}
use go_sentinel.Worker.Spans.{Histogram}
use go_sentinel.Worker.Collector.{
  MetricsCollector, RequestCount, max_messages, keep_message, clean_up, sum_after, record_request,
  get_snapshot, window_seconds_of, reset,
}

-- One call of RecordRequest.
pub record Entry : Type 0 where
  pub at : ℤ
  pub success : Bool
  pub duration : ℤ
  pub status_code : ℤ
  pub message : String

abbrev pub failures : List Entry → ℕ
failures [] = 0
failures (e ∷ entries) = (if e.success then 0 else 1) + failures entries

-- The messages of the failed requests that are not empty.
abbrev pub messages_of : List Entry → List String
messages_of [] = []
messages_of (e ∷ entries) =
    if not e.success && not (str_eq e.message "")
    then e.message ∷ messages_of entries
    else messages_of entries

-- The number of requests that were recorded later than a time.
abbrev pub made_after : ℤ → List Entry → ℕ
made_after cutoff [] = 0
made_after cutoff (e ∷ entries) = (if ltb_ℤ cutoff e.at then 1 else 0) + made_after cutoff entries

counted_after : ℤ → List RequestCount → ℕ
counted_after cutoff [] = 0
counted_after cutoff (rc ∷ counts) =
    (if ltb_ℤ cutoff rc.timestamp then 1 else 0) + counted_after cutoff counts

counted-clean_up :
    (cutoff old : ℤ) (counts : List RequestCount)
    → old ≤ℤ cutoff
    → counted_after cutoff (clean_up old counts) ≡ counted_after cutoff counts
unfolding counted_after clean_up
counted-clean_up cutoff old [] h = refl
counted-clean_up cutoff old (rc ∷ counts) h = ground (arith, counted-clean_up cutoff old counts)

counted-append :
    (cutoff : ℤ) (counts : List RequestCount) (rc : RequestCount)
    → counted_after cutoff (counts ++ (rc ∷ []))
      ≡ counted_after cutoff counts + (if ltb_ℤ cutoff rc.timestamp then 1 else 0)
unfolding counted_after
counted-append cutoff [] rc = ground arith
counted-append cutoff (x ∷ counts) rc = ground (arith, counted-append cutoff counts rc)

abbrev IsOne : RequestCount → Type 0
IsOne rc = rc.count ≡ pos 1

clean_up-ones :
    (old : ℤ) (counts : List RequestCount) → All IsOne counts → All IsOne (clean_up old counts)
unfolding clean_up
clean_up-ones old [] h = tt
clean_up-ones old (rc ∷ counts) h = elim (Bool-cases (ltb_ℤ old rc.timestamp)) [
  | inl e ↦ rw e (h.0, clean_up-ones old counts h.1)
  | inr e ↦ rw e (clean_up-ones old counts h.1)
]

append-ones :
    (counts : List RequestCount) (rc : RequestCount)
    → All IsOne counts
    → IsOne rc
    → All IsOne (counts ++ (rc ∷ []))
append-ones [] rc h e = (e, tt)
append-ones (x ∷ counts) rc h e = (h.0, append-ones counts rc h.1 e)

next_int : (n : ℕ) → suc n < half64 → wrap64 (pos n +ℤ pos 1) ≡ pos (suc n)
next_int n l =
    rw (+ℤ_pos n 1) (wrap64_id (pos (n + 1)) (omega (arith, l), omega arith) ∙ ap pos (omega arith))

sum-counted :
    (cutoff : ℤ) (n : ℕ) (counts : List RequestCount)
    → All IsOne counts
    → n + counted_after cutoff counts < half64
    → sum_after cutoff (pos n) counts ≡ pos (n + counted_after cutoff counts)
unfolding sum_after counted_after
sum-counted cutoff n [] h l = ap pos (omega arith)
sum-counted cutoff n (rc ∷ counts) (one, h) l = elim (Bool-cases (ltb_ℤ cutoff rc.timestamp)) [
  | inl e ↦
      rw (e, one, next_int n (ground arith))
        (sum-counted cutoff (suc n) counts h (ground arith) ∙ ap pos (ground arith))
  | inr e ↦ rw e (sum-counted cutoff n counts h (ground arith) ∙ ap pos (omega arith))
]

made_after-le : (cutoff : ℤ) (entries : List Entry) → made_after cutoff entries ≤ length entries
made_after-le cutoff [] = omega arith
made_after-le cutoff (e ∷ entries) = ground (arith, made_after-le cutoff entries)

-- Keeping messages one by one keeps the first hundred.
keep_all : List Entry → List String → List String
keep_all [] kept = kept
keep_all (e ∷ entries) kept =
    keep_all entries (if e.success then kept else keep_message e.message kept)

limit-append : {A : Type 0} (n : ℕ) (xs ys : List A) → length xs ≡ n → limit n (xs ++ ys) ≡ xs
unfolding limit
limit-append n [] [] h = rw (sym h) refl
limit-append n [] (y ∷ ys) h = rw (sym h) refl
limit-append zero (x ∷ xs) ys h = absurd (omega (arith, h))
limit-append (suc n) (x ∷ xs) ys h = ap (λ rest. x ∷ rest) (limit-append n xs ys (omega (arith, h)))

limit-all : {A : Type 0} (n : ℕ) (xs : List A) → length xs ≤ n → limit n (xs ++ []) ≡ xs
unfolding limit
limit-all zero [] h = refl
limit-all (suc n) [] h = refl
limit-all zero (x ∷ xs) h = absurd (omega (arith, h))
limit-all (suc n) (x ∷ xs) h = ap (λ rest. x ∷ rest) (limit-all n xs (omega (arith, h)))

keep_all-first :
    (entries : List Entry) (kept : List String)
    → length kept ≤ max_messages
    → keep_all entries kept ≡ limit max_messages (kept ++ messages_of entries)
unfolding keep_all keep_message
keep_all-first [] kept h = sym (limit-all max_messages kept h)
keep_all-first (e ∷ entries) kept h = elim (Bool-cases e.success) [
  | inl s ↦ rw s (keep_all-first entries kept h)
  | inr s ↦ elim (Bool-cases (str_eq e.message "")) [
    | inl m ↦ rw (s, m) (keep_all-first entries kept h)
    | inr m ↦ elim (Bool-cases (ltb (length kept) max_messages)) [
      | inl l ↦
          rw (s, m, l)
            (keep_all-first entries (kept ++ (e.message ∷ [])) (
                omega
                  (arith, length-append kept (e.message ∷ []), ltb→lt (length kept) max_messages l))
              ∙ ap (limit max_messages) (append_assoc kept (e.message ∷ []) (messages_of entries)))
      | inr l ↦
          let full : length kept ≡ max_messages = ground (arith, h) in
          rw (s, m, l)
            (keep_all-first entries kept h
              ∙ limit-append max_messages kept (messages_of entries) full
              ∙ sym (limit-append max_messages kept (e.message ∷ messages_of entries) full))
    ]
  ]
]

module _ (fl : Float64) (hg : Histogram) where
  open fl use {F, of_int, div}
  open hg use {H}

  unfoldable pub record_all : List Entry → MetricsCollector F H → MetricsCollector F H
  record_all [] mc = mc
  record_all (e ∷ entries) mc =
      record_all entries (record_request fl hg e.at e.success e.duration e.status_code e.message mc)

  totals :
      (entries : List Entry) (mc : MetricsCollector F H) (a b : ℕ)
      → mc.total_requests ≡ pos a
      → mc.total_errors ≡ pos b
      → a + length entries < half64
      → b ≤ a
      → ((record_all entries mc).total_requests ≡ pos (a + length entries))
        × ((record_all entries mc).total_errors ≡ pos (b + failures entries))
  unfolding record_all record_request
  totals [] mc a b e f l le = (e ∙ ap pos (omega arith), f ∙ ap pos (omega arith))
  totals (x ∷ entries) mc a b e f l le = elim (Bool-cases x.success) [
    | inl s ↦
        let ih =
          totals entries _ (suc a) b (rw e (next_int a (omega (arith, l)))) (rw s f)
            (omega (arith, l)) (omega (arith, le)) in
        (ih.0 ∙ ap pos (omega arith), ih.1 ∙ ap pos (ground (arith, s)))
    | inr s ↦
        let ih =
          totals entries _ (suc a) (suc b) (rw e (next_int a (omega (arith, l))))
            (rw (s, f) (next_int b (omega (arith, l, le)))) (omega (arith, l))
            (omega (arith, le)) in
        (ih.0 ∙ ap pos (omega arith), ih.1 ∙ ap pos (ground (arith, s)))
  ]

  kept_messages :
      (entries : List Entry) (mc : MetricsCollector F H)
      → (record_all entries mc).error_messages ≡ keep_all entries mc.error_messages
  unfolding record_all record_request keep_all
  kept_messages [] mc = refl
  kept_messages (x ∷ entries) mc = kept_messages entries _

  same_window :
      (entries : List Entry) (mc : MetricsCollector F H)
      → (record_all entries mc).window_size ≡ mc.window_size
  unfolding record_all record_request
  same_window [] mc = refl
  same_window (x ∷ entries) mc = same_window entries _

  ones :
      (entries : List Entry) (mc : MetricsCollector F H)
      → All IsOne mc.request_counts
      → All IsOne (record_all entries mc).request_counts
  unfolding record_all record_request
  ones [] mc h = h
  ones (x ∷ entries) mc h =
      ones entries (record_request fl hg x.at x.success x.duration x.status_code x.message mc)
        (clean_up-ones (x.at -ℤ mc.window_size) _ (append-ones mc.request_counts _ h refl))

  counted :
      (later : ℤ) (entries : List Entry) (mc : MetricsCollector F H)
      → All (λ e. e.at ≤ℤ later) entries
      → counted_after (later -ℤ mc.window_size) (record_all entries mc).request_counts
        ≡ counted_after (later -ℤ mc.window_size) mc.request_counts
          + made_after (later -ℤ mc.window_size) entries
  unfolding record_all record_request
  counted later [] mc h = omega arith
  counted later (x ∷ entries) mc (le, h) =
      counted later entries _ h
      ∙ rw
          (
            counted-clean_up (later -ℤ mc.window_size) (x.at -ℤ mc.window_size) _
                (omega (arith, le, -ℤ_parts later mc.window_size, -ℤ_parts x.at mc.window_size)),
            counted-append (later -ℤ mc.window_size) mc.request_counts
                (record { timestamp = x.at; count = pos 1 }),
          )
          (omega arith)

  seen-total :
      (later : ℤ) (entries : List Entry) (mc : MetricsCollector F H)
      → mc.request_counts ≡ []
      → All IsOne mc.request_counts
      → length entries < half64
      → All (λ e. e.at ≤ℤ later) entries
      → sum_after
          (later -ℤ (record_all entries mc).window_size)
          (pos 0)
          (record_all entries mc).request_counts
        ≡ pos (made_after (later -ℤ (record_all entries mc).window_size) entries)
  unfolding counted_after
  seen-total later entries mc none_yet one l h =
      let cutoff = later -ℤ mc.window_size in
      let seen : counted_after cutoff (record_all entries mc).request_counts
          ≡ made_after cutoff entries =
        counted later entries mc h ∙ rw none_yet (omega arith) in
      rw (same_window entries mc) (
        sum-counted cutoff 0 (record_all entries mc).request_counts (ones entries mc one)
          (omega (arith, seen, made_after-le cutoff entries, l))
        ∙ ap pos (omega (arith, seen)))

  -- What a snapshot later than every request is to show.
  pub record IsTally (later : ℤ) (entries : List Entry) (mc : MetricsCollector F H) : Type 0 where
    pub requests : (get_snapshot fl hg later mc).1.total_requests ≡ pos (length entries)
    pub errors : (get_snapshot fl hg later mc).1.total_errors ≡ pos (failures entries)
    pub messages :
        (get_snapshot fl hg later mc).1.error_rate.error_messages
        ≡ limit max_messages (messages_of entries)
    pub rate :
        (get_snapshot fl hg later mc).1.rps.current
        ≡ div
            (of_int (pos (made_after (later -ℤ mc.window_size) entries)))
            (of_int (window_seconds_of mc.window_size))

  -- After a reset and fewer than 2^63 requests that are recorded in any order, a snapshot that is not
  -- earlier than any of them has their number, the number of those that failed, and the first hundred
  -- non-empty messages of the failed ones; its current rate is the number of those that were made
  -- within the window before the snapshot, by the seconds of the window, although the collector has
  -- forgotten older ones.
  pub record_all-IsTally :
      (now later : ℤ) (entries : List Entry) (mc : MetricsCollector F H)
      → length entries < half64
      → All (λ e. e.at ≤ℤ later) entries
      → IsTally later entries (record_all entries (reset fl hg now mc))
  unfolding get_snapshot reset
  record_all-IsTally now later entries mc l h =
      let start = reset fl hg now mc in
      let (total, errors) = totals entries start 0 0 refl refl (omega (arith, l)) (omega arith) in
      record {
        requests = total ∙ ap pos (omega arith);
        errors = errors ∙ ap pos (omega arith);
        messages = kept_messages entries start ∙ keep_all-first entries [] (omega arith);
        rate =
            ap
              (λ n.
                div (of_int n) (of_int (window_seconds_of (record_all entries start).window_size)))
              (seen-total later entries start refl tt l h);
      }
