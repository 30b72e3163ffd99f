-- ===== src/Monitor/Collector/Loop.antt =====
-- `collector_loop` of src/monitor/mod.rs over all its rounds: what the monitor holds of the messages that
-- the link of the broker handed over.
use hi_mqtt.Prelude.{
  ℕ, ◌+◌, ◌-◌, ◌≤◌, ◌≡◌, refl, sym, ap, ◌∙◌, List, [], ◌∷◌, ◌++◌, Text, leb, All, arith, Bool-cases,
  inl, inr,
}
use mathlib.Core.Path.{subst}
use mathlib.Core.List.{append-nil}
use Prim.Native.Nat.{◌%◌}
use hi_mqtt.Prelude.Exec.{ok, err}
use hi_mqtt.Monitor.State.{
  MessageRecord, MonitorState, window, u64_mod, new_record, push_message, refresh_stats,
}
use hi_mqtt.Monitor.State.Recent.{IsClock}
use hi_mqtt.Monitor.State.History.{IsViewOf, times, push_message-IsViewOf}
use hi_mqtt.Monitor.Collector.{
  Received, forward, other_notification, nothing, recv_timeout, link_closed, Collector, Input,
  Meter, take_meter, take_batch, drain_meters, poll, receive, collect, collector_loop,
}

IsViewOf-refresh :
    (history : List MessageRecord) (since polled_at refreshed_at now : ℕ) (c : Collector)
    → IsViewOf history since c.state
    → IsViewOf history since (poll polled_at refreshed_at now c).state
unfolding poll refresh_stats
IsViewOf-refresh history since polled_at refreshed_at now c v =
    elim (Bool-cases (leb 1000 (polled_at - c.last_meter_poll))) [
      | inl due ↦
          rw due
            (record { buffer = v.buffer; recent = v.recent; counted = v.counted; total = v.total })
      | inr early ↦ rw early v
    ]

state-take_meter : (m : Meter) (c : Collector) → (take_meter m c).state ≡ c.state
unfolding take_meter
state-take_meter m c = ground arith

state-take_batch : (batch : List Meter) (c : Collector) → (take_batch batch c).state ≡ c.state
unfolding take_batch
state-take_batch [] c = refl
state-take_batch (m ∷ batch) c = state-take_batch batch (take_meter m c) ∙ state-take_meter m c

state-drain_meters :
    (batches : List (List Meter)) (c : Collector) → (drain_meters batches c).state ≡ c.state
unfolding drain_meters
state-drain_meters [] c = refl
state-drain_meters (batch ∷ batches) c =
    state-drain_meters batches (take_batch batch c) ∙ state-take_batch batch c

total-poll :
    (polled_at refreshed_at now : ℕ) (c : Collector)
    → (poll polled_at refreshed_at now c).state.message_total ≡ c.state.message_total
unfolding poll refresh_stats
total-poll polled_at refreshed_at now c = ground arith

module _ (lossy : List ℕ → Text) where
  abbrev record_first : Received → ℕ → (ℕ → List MessageRecord) → ℕ → List MessageRecord
  record_first (forward topic payload retain) now later total =
      new_record lossy (lossy topic) payload 0 retain now total ∷ later ((total + 1) % u64_mod)
  record_first other_notification now later total = later total
  record_first nothing now later total = later total
  record_first recv_timeout now later total = later total
  record_first link_closed now later total = []

  -- The records of the messages that the link hands over until it is closed, in order, where so
  -- many have been counted before.
  abbrev pub handed_over : List Input → ℕ → List MessageRecord
  handed_over [] total = []
  handed_over (i ∷ inputs) total = record_first i.received i.message_now (handed_over inputs) total

  -- Each message's window begins no earlier than the one before.
  abbrev pub Follows : ℕ → List MessageRecord → Type 0
  Follows since [] = Unit
  Follows since (m ∷ messages) = (since ≤ m.ts - window) × Follows (m.ts - window) messages

  -- The start of the minute that ends with the last message, or what it was where none has come.
  abbrev pub last_window : ℕ → List MessageRecord → ℕ
  last_window since [] = since
  last_window since (m ∷ messages) = last_window (m.ts - window) messages

  -- What a run of the loop is to leave: the view of all messages, with the times of the minute
  -- that ends with the last one.
  abbrev pub IsExtended : List MessageRecord → ℕ → List MessageRecord → MonitorState → Type 0
  IsExtended history since new s = IsViewOf (history ++ new) (last_window since new) s

  IsClock-prefix : (ts us : List ℕ) → IsClock (ts ++ us) → IsClock ts
  IsClock-prefix [] us h = tt
  IsClock-prefix (t ∷ ts) us (h, k) = (All-prefix t ts us h, IsClock-prefix ts us k)
    where
      All-prefix : (t : ℕ) (xs ys : List ℕ) → All (λ u. t ≤ u) (xs ++ ys) → All (λ u. t ≤ u) xs
      All-prefix t [] ys h = tt
      All-prefix t (x ∷ xs) ys (p, h) = (p, All-prefix t xs ys h)

  times-append_list : (h k : List MessageRecord) → times (h ++ k) ≡ times h ++ times k
  times-append_list [] k = refl
  times-append_list (m ∷ h) k = ap (λ (l : List ℕ). m.ts ∷ l) (times-append_list h k)

  append_one :
      (history new : List MessageRecord) (m : MessageRecord)
      → history ++ m ∷ new ≡ (history ++ m ∷ []) ++ new
  append_one [] new m = refl
  append_one (x ∷ history) new m = ap (λ (l : List MessageRecord). x ∷ l) (append_one history new m)

  -- What the rounds that remain are to do.
  abbrev IsKept : List Input → Type 0
  IsKept inputs =
      (c : Collector) (history : List MessageRecord) (since : ℕ)
      → IsViewOf history since c.state
      → IsClock (times (history ++ handed_over inputs c.state.message_total))
      → Follows since (handed_over inputs c.state.message_total)
      → IsExtended history since (handed_over inputs c.state.message_total)
          (collector_loop lossy inputs c).state

  received-IsExtended :
      (r : Received) (now : ℕ) (inputs : List Input) (c : Collector) (history : List MessageRecord)
      (since : ℕ)
      → IsKept inputs
      → IsViewOf history since c.state
      → IsClock (times (history ++ record_first r now (handed_over inputs) c.state.message_total))
      → Follows since (record_first r now (handed_over inputs) c.state.message_total)
      → IsExtended history since
          (record_first r now (handed_over inputs) c.state.message_total)
          (elim (receive lossy r now c).0 as (λ _. Collector) [
            | ok _ ↦ collector_loop lossy inputs (receive lossy r now c).1
            | err _ ↦ (receive lossy r now c).1
          ]).state
  unfolding receive push_message
  received-IsExtended (forward topic payload retain) now inputs c history since kept v clock f =
      let m = new_record lossy (lossy topic) payload 0 retain now c.state.message_total in
      let new : List MessageRecord = handed_over inputs ((c.state.message_total + 1) % u64_mod) in
      let one : history ++ m ∷ new ≡ (history ++ m ∷ []) ++ new = append_one history new m in
      let ordered : IsClock (times ((history ++ m ∷ []) ++ new)) =
        subst (λ h. IsClock (times h)) one clock in
      let first : IsClock (times history ++ now ∷ []) =
        subst IsClock (times-append_list history (m ∷ [])) (
          IsClock-prefix _ (times new)
            (subst IsClock (times-append_list (history ++ m ∷ []) new) ordered)) in
      let c1 : Collector = record c {
        state = push_message lossy (lossy topic) payload 0 retain now c.state;
      } in
      subst
        (λ h. IsViewOf h (last_window (now - window) new) (collector_loop lossy inputs c1).state)
        (sym one)
        (kept c1 (history ++ m ∷ []) (now - window)
          (push_message-IsViewOf lossy (lossy topic) payload 0 retain now c.state history since v
            f.0 first)
          ordered f.1)
  received-IsExtended other_notification now inputs c history since kept v clock f =
      kept c history since v clock f
  received-IsExtended nothing now inputs c history since kept v clock f =
      kept c history since v clock f
  received-IsExtended recv_timeout now inputs c history since kept v clock f =
      kept c history since v clock f
  received-IsExtended link_closed now inputs c history since kept v clock f =
      rw (append-nil history) v

  -- However many rounds it runs and whatever the meters and the clocks give, the loop leaves the
  -- monitor the exact view of the messages before it and of those the link handed over until it was
  -- closed, in their order, when their times go forward: the newest messages, the times within the
  -- minute that ends with the last message, the count of each topic and the count of all.
  pub collector_loop-IsViewOf :
      (inputs : List Input) (c : Collector) (history : List MessageRecord) (since : ℕ)
      → IsViewOf history since c.state
      → IsClock (times (history ++ handed_over inputs c.state.message_total))
      → Follows since (handed_over inputs c.state.message_total)
      → IsExtended history since
          (handed_over inputs c.state.message_total)
          (collector_loop lossy inputs c).state
  unfolding collector_loop collect
  collector_loop-IsViewOf [] c history since v clock f = rw (append-nil history) v
  collector_loop-IsViewOf (i ∷ inputs) c history since v clock f =
      let drained = drain_meters i.batches c in
      let polled = poll i.polled_at i.refreshed_at i.refresh_now drained in
      let e : polled.state.message_total ≡ c.state.message_total =
        total-poll i.polled_at i.refreshed_at i.refresh_now drained
        ∙ ap (λ (x : MonitorState). x.message_total) (state-drain_meters i.batches c) in
      let new : ℕ → List MessageRecord =
        record_first i.received i.message_now (handed_over inputs) in
      subst
        (λ n.
          IsClock (times (history ++ new n))
          → Follows since (new n)
          → IsExtended history since (new n) (collector_loop lossy (i ∷ inputs) c).state)
        e
        (received-IsExtended i.received i.message_now inputs polled history since
          (collector_loop-IsViewOf inputs)
          (IsViewOf-refresh history since i.polled_at i.refreshed_at i.refresh_now drained
            (subst (IsViewOf history since) (sym (state-drain_meters i.batches c)) v)))
        clock f
