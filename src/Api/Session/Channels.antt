-- ===== src/Api/Session/Channels.antt =====
-- What the subscribers of a session see.
use go_sentinel.Base.{
  ℕ, zero, suc, ◌≤◌, String, List, [], ◌∷◌, ◌++◌, Option, none, some, Bool, true, false, ltb,
  ltb→lt, map, any, All, length, length-append, if◌then◌else◌, ◌≡◌, refl, ap, arith, inl, inr,
  Bool-cases, ◌&&◌,
}
use go_sentinel.Api.Metrics.{Metrics}
use go_sentinel.Api.Session.{
  Event, Channel, Session, metrics_event, status_event, end_event, send, close_channel,
  first_events, subscribe, close_at, unsubscribe, publish, close, capacity,
}

module _ {F : Type 0} where
  abbrev pub is_end : Event F → Bool
  is_end (end_event s) = true
  is_end (metrics_event m) = false
  is_end (status_event s) = false

  -- No event follows an end.
  abbrev pub IsEndLast : List (Event F) → Type 0
  IsEndLast [] = Unit
  IsEndLast (ev ∷ events) = (is_end ev ≡ true → events ≡ []) × IsEndLast events

  -- A channel holds at most 64 events, an open one holds no end, and a closed one none but as its
  -- last event.
  pub record IsStream (c : Channel F) : Type 0 where
    pub bounded : length c.events ≤ capacity
    pub running : c.is_open ≡ true → any is_end c.events ≡ false
    pub end_last : IsEndLast c.events

  no_end-IsEndLast : (events : List (Event F)) → any is_end events ≡ false → IsEndLast events
  no_end-IsEndLast [] h = tt
  no_end-IsEndLast (ev ∷ events) h =
      ((λ e. absurd (ground arith)), no_end-IsEndLast events (ground arith))

  append-IsEndLast :
      (events : List (Event F)) (ev : Event F)
      → any is_end events ≡ false
      → IsEndLast (events ++ (ev ∷ []))
  append-IsEndLast [] ev h = ((λ e. refl), tt)
  append-IsEndLast (e ∷ events) ev h =
      ((λ d. absurd (ground arith)), append-IsEndLast events ev (ground arith))

  any-added :
      (events : List (Event F)) (ev : Event F)
      → any is_end events ≡ false
      → is_end ev ≡ false
      → any is_end (events ++ (ev ∷ [])) ≡ false
  any-added [] ev h e = ground arith
  any-added (x ∷ events) ev h e = ground (arith, any-added events ev)

  sent :
      (events : List (Event F)) (ev : Event F)
      → ltb (length events) capacity ≡ true
      → length (events ++ (ev ∷ [])) ≤ capacity
  sent events ev l =
      omega (arith, length-append events (ev ∷ []), ltb→lt (length events) capacity l)

  -- A send of an event that is not an end keeps a channel well-formed; a send of an end does so
  -- where the channel is closed after it.
  send-IsStream :
      (ev : Event F) (c : Channel F) → is_end ev ≡ false → IsStream c → IsStream (send ev c)
  unfolding send
  send-IsStream ev c e h = elim (Bool-cases (c.is_open && ltb (length c.events) capacity)) [
    | inl s ↦
        rw (send, s)
          (record {
            bounded = sent c.events ev (ground arith);
            running = λ o. any-added c.events ev (h.running o) e;
            end_last = append-IsEndLast c.events ev (h.running (ground arith));
          })
    | inr s ↦ rw (send, s) h
  ]

  close-IsStream :
      (ev : Event F) (c : Channel F) → IsStream c → IsStream (close_channel (send ev c))
  unfolding send close_channel
  close-IsStream ev c h = elim (Bool-cases (c.is_open && ltb (length c.events) capacity)) [
    | inl s ↦
        rw (send, s)
          (record {
            bounded = sent c.events ev (ground arith);
            running = λ o. absurd (ground arith);
            end_last = append-IsEndLast c.events ev (h.running (ground arith));
          })
    | inr s ↦
        rw (send, s)
          (record {
            bounded = h.bounded;
            running = λ o. absurd (ground arith);
            end_last = h.end_last;
          })
  ]

  -- A subscriber takes the first event of its channel.
  unfoldable pub take_first : Channel F → Channel F
  take_first c = record c { events = elim c.events [ [] ↦ [] | ev ∷ rest ↦ rest ] }

  take_first-IsStream : (c : Channel F) → IsStream c → IsStream (take_first c)
  unfolding take_first
  take_first-IsStream c h = record {
    bounded = shorter c.events h.bounded;
    running = λ o. no_end c.events (h.running o);
    end_last = tail c.events h.end_last;
  }
    where
      rest : List (Event F) → List (Event F)
      rest events = elim events [ [] ↦ [] | ev ∷ es ↦ es ]

      shorter : (es : List (Event F)) → length es ≤ capacity → length (rest es) ≤ capacity
      shorter [] h = h
      shorter (e ∷ es) h = omega (arith, h)

      no_end : (es : List (Event F)) → any is_end es ≡ false → any is_end (rest es) ≡ false
      no_end [] h = refl
      no_end (e ∷ es) h = ground arith

      tail : (es : List (Event F)) → IsEndLast es → IsEndLast (rest es)
      tail [] h = tt
      tail (e ∷ es) h = h.1

  -- A change of the channel at an index.
  unfoldable pub at_index : (Channel F → Channel F) → ℕ → List (Channel F) → List (Channel F)
  at_index f n [] = []
  at_index f zero (c ∷ channels) = f c ∷ channels
  at_index f (suc n) (c ∷ channels) = c ∷ at_index f n channels

  All-map :
      (P Q : Channel F → Type 0) (f : Channel F → Channel F)
      → ((c : Channel F) → P c → Q (f c))
      → (cs : List (Channel F)) → All P cs
      → All Q (map f cs)
  All-map P Q f g [] h = tt
  All-map P Q f g (c ∷ cs) h = (g c h.0, All-map P Q f g cs h.1)

  All-at_index :
      (P : Channel F → Type 0) (f : Channel F → Channel F)
      → ((c : Channel F) → P c → P (f c))
      → (n : ℕ) (cs : List (Channel F)) → All P cs
      → All P (at_index f n cs)
  unfolding at_index
  All-at_index P f g n [] h = tt
  All-at_index P f g zero (c ∷ cs) h = (g c h.0, h.1)
  All-at_index P f g (suc n) (c ∷ cs) h = (h.0, All-at_index P f g n cs h.1)

  close_at-at_index : (n : ℕ) (cs : List (Channel F)) → close_at n cs ≡ at_index close_channel n cs
  unfolding at_index close_at
  close_at-at_index n [] = refl
  close_at-at_index zero (c ∷ cs) = refl
  close_at-at_index (suc n) (c ∷ cs) = ap (λ rest. c ∷ rest) (close_at-at_index n cs)

  -- What the run and its subscribers do with a session.
  pub data Step (s t : Session F) : Type 0 where
    joins : t ≡ subscribe s → Step s t
    leaves : (n : ℕ) → t ≡ unsubscribe n s → Step s t
    takes : (n : ℕ) → t ≡ record s { channels = at_index take_first n s.channels } → Step s t
    publishes : (ev : Event F) → is_end ev ≡ false → t ≡ publish ev s → Step s t
    notes :
        (m : Metrics F) (peak : F) (text : String)
        → t ≡ record s { last = some m; peak_rps = peak; status = text }
        → Step s t
    closes : (final : Event F) → t ≡ close final s → Step s t

  pub data Reached (s : Session F) : Session F → Type 0 where
    fresh : s.channels ≡ [] → Reached s s
    next : {t u : Session F} → Reached s t → Step t u → Reached s u

  -- Each channel is a stream, and none is open once the session is closed.
  abbrev IsKept : Session F → Type 0
  IsKept s = All (λ c. IsStream c × (s.closed ≡ true → c.is_open ≡ false)) s.channels

  closed-IsStream : (c : Channel F) → IsStream c → IsStream (close_channel c)
  unfolding close_channel
  closed-IsStream c h = record {
    bounded = h.bounded;
    running = λ o. absurd (ground arith);
    end_last = h.end_last;
  }

  append-All :
      (P : Channel F → Type 0) (cs : List (Channel F)) (c : Channel F)
      → All P cs
      → P c
      → All P (cs ++ (c ∷ []))
  append-All P [] c h p = (p, tt)
  append-All P (d ∷ cs) c h p = (h.0, append-All P cs c h.1 p)

  joined-IsStream :
      (is_closed : Bool) (last : Option (Metrics F))
      → let c : Channel F =
          if is_closed
          then record { events = []; is_open = false }
          else record { events = first_events last; is_open = true } in
        IsStream c × (is_closed ≡ true → c.is_open ≡ false)
  joined-IsStream true last =
      (record { bounded = omega arith; running = λ o. refl; end_last = tt }, λ e. refl)
  joined-IsStream false none = (
    record { bounded = omega arith; running = λ o. refl; end_last = tt },
    λ e. absurd (ground arith),
  )
  joined-IsStream false (some m) = (
    record { bounded = omega arith; running = λ o. refl; end_last = ((λ e. refl), tt) },
    λ e. absurd (ground arith),
  )

  publish_open :
      (ev : Event F) (s : Session F)
      → s.closed ≡ false
      → publish ev s ≡ record s { channels = map (send ev) s.channels }
  unfolding publish
  publish_open ev s e = rw e refl

  publish_closed : (ev : Event F) (s : Session F) → s.closed ≡ true → publish ev s ≡ s
  unfolding publish
  publish_closed ev s e = rw e refl

  close_open :
      (ev : Event F) (s : Session F)
      → s.closed ≡ false
      → close ev s
        ≡ record s { closed = true; channels = map (λ c. close_channel (send ev c)) s.channels }
  unfolding close
  close_open ev s e = rw e refl

  close_closed : (ev : Event F) (s : Session F) → s.closed ≡ true → close ev s ≡ s
  unfolding close
  close_closed ev s e = rw e refl

  publish-IsKept :
      (ev : Event F) (s : Session F) → is_end ev ≡ false → IsKept s → IsKept (publish ev s)
  publish-IsKept ev s e h = elim (Bool-cases s.closed) [
    | inl c ↦ rw (publish_closed ev s c) h
    | inr c ↦ rw (publish_open ev s c) (
        All-map _ _ (send ev) (λ d k. (send-IsStream ev d e k.0, λ t. absurd (ground arith)))
          s.channels h)
  ]

  close-IsKept : (ev : Event F) (s : Session F) → IsKept s → IsKept (close ev s)
  unfolding close_channel
  close-IsKept ev s h = elim (Bool-cases s.closed) [
    | inl c ↦ rw (close_closed ev s c) h
    | inr c ↦ rw (close_open ev s c) (
        All-map _ _ (λ d. close_channel (send ev d)) (λ d k. (close-IsStream ev d k.0, λ t. refl))
          s.channels h)
  ]

  Step-IsKept : (s t : Session F) → Step s t → IsKept s → IsKept t
  unfolding subscribe unsubscribe take_first close_channel
  Step-IsKept s t (joins e) h = rw e (append-All _ s.channels _ h (joined-IsStream s.closed s.last))
  Step-IsKept s t (leaves n e) h =
      rw (e, close_at-at_index n s.channels)
        (All-at_index _ close_channel (λ c k. (closed-IsStream c k.0, λ x. refl)) n s.channels h)
  Step-IsKept s t (takes n e) h =
      rw e (All-at_index _ take_first (λ c k. (take_first-IsStream c k.0, k.1)) n s.channels h)
  Step-IsKept s t (publishes ev e x) h = rw x (publish-IsKept ev s e h)
  Step-IsKept s t (notes m peak text e) h = rw e h
  Step-IsKept s t (closes final e) h = rw e (close-IsKept final s h)

  -- However the subscribers of a session that starts without any join, leave and take their events
  -- while its run notes metrics, publishes and closes it: no channel ever holds more than 64 events,
  -- an open channel holds no end event, no event follows an end event in a channel, and once the
  -- session is closed no channel is open.
  pub Reached-IsKept :
      (s t : Session F)
      → Reached s t
      → All (λ c. IsStream c × (t.closed ≡ true → c.is_open ≡ false)) t.channels
  Reached-IsKept s t (fresh e) = rw e tt
  Reached-IsKept s t (next {t = u} r st) = Step-IsKept u t st (Reached-IsKept s u r)
