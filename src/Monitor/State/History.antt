-- ===== src/Monitor/State/History.antt =====
-- The state of the monitor against the history of all messages: src/monitor/mod.rs forgets most of
-- it, and what it keeps is exact.
use hi_mqtt.Prelude.{
  ℕ, ◌+◌, ◌-◌, ◌≤◌, ◌≡◌, refl, sym, ap, ◌∙◌, Bool, List, [], ◌∷◌, ◌++◌, map, Text, length, select,
  max, lookup, lookup-insert, text_eq, text_eq_iff, length-append, leb, if◌then◌else◌, arith,
  Bool-cases, inl, inr, All,
}
use Prim.Native.Nat.{◌%◌}
use hi_mqtt.Monitor.State.{
  ConnectionSnapshot, SubscriptionSnapshot, refresh_stats, MessageRecord, MonitorState, window,
  u64_mod, drop_before, count_topic, or_zero, new_record, push_message, new_monitor,
}
use hi_mqtt.Monitor.State.Recent.{
  newest, drop-nil, store_message-newest, IsClock, drop_before-select,
}

module _ {A : Type 0} (p : A → Bool) where
  pub select-append : (xs ys : List A) → select p (xs ++ ys) ≡ select p xs ++ select p ys
  unfolding select
  select-append [] ys = refl
  select-append (x ∷ xs) ys = ground (arith, select-append xs ys)

All-select :
    (a : ℕ) (p : ℕ → Bool) (ts : List ℕ) → All (λ u. a ≤ u) ts → All (λ u. a ≤ u) (select p ts)
unfolding select
All-select a p [] h = tt
All-select a p (t ∷ ts) (h, k) = elim (Bool-cases (p t)) [
  | inl e ↦ rw e (h, All-select a p ts k)
  | inr e ↦ rw e (All-select a p ts k)
]

IsClock-select : (p : ℕ → Bool) (ts : List ℕ) → IsClock ts → IsClock (select p ts)
unfolding select
IsClock-select p [] h = tt
IsClock-select p (t ∷ ts) (h, k) = elim (Bool-cases (p t)) [
  | inl e ↦ rw e (All-select t p ts h, IsClock-select p ts k)
  | inr e ↦ rw e (IsClock-select p ts k)
]

select-select :
    (a b : ℕ) (ts : List ℕ)
    → a ≤ b
    → select (λ u. leb b u) (select (λ u. leb a u) ts) ≡ select (λ u. leb b u) ts
unfolding select
select-select a b [] h = refl
select-select a b (t ∷ ts) h = ground (arith, select-select a b ts h)

abbrev pub times : List MessageRecord → List ℕ
times history = map (λ (m : MessageRecord). m.ts) history

abbrev pub count_in : Text → List MessageRecord → ℕ
count_in topic [] = 0
count_in topic (m ∷ history) = (if text_eq m.topic topic then 1 else 0) + count_in topic history

times-append :
    (h : List MessageRecord) (m : MessageRecord) → times (h ++ m ∷ []) ≡ times h ++ m.ts ∷ []
times-append [] m = refl
times-append (x ∷ h) m = ap (λ (l : List ℕ). x.ts ∷ l) (times-append h m)

count_in-append :
    (topic : Text) (h : List MessageRecord) (m : MessageRecord)
    → count_in topic (h ++ m ∷ []) ≡ count_in topic h + (if text_eq m.topic topic then 1 else 0)
count_in-append topic [] m = omega arith
count_in-append topic (x ∷ h) m = omega (arith, count_in-append topic h m)

-- What the state holds of a history, where `since` is the limit of the last message's window.
pub record IsViewOf (history : List MessageRecord) (since : ℕ) (s : MonitorState) : Type 0 where
  pub buffer : s.messages ≡ newest (max s.max_messages 1) history
  pub recent : s.recent_ts ≡ select (λ u. leb since u) (times history)
  pub counted :
      (topic : Text) → or_zero (lookup topic s.topic_counts) ≡ count_in topic history % u64_mod
  pub total : s.message_total ≡ length history % u64_mod

recent-push :
    (since now : ℕ) (ts : List ℕ)
    → since ≤ now - window
    → IsClock (ts ++ now ∷ [])
    → drop_before (now - window) (select (λ u. leb since u) ts ++ now ∷ [])
      ≡ select (λ u. leb (now - window) u) (ts ++ now ∷ [])
unfolding select
recent-push since now ts h clock =
    let kept : select (λ u. leb since u) ts ++ now ∷ []
        ≡ select (λ u. leb since u) (ts ++ now ∷ []) =
      sym (select-append (λ u. leb since u) ts (now ∷ []) ∙ ground arith) in
    rw kept (
      drop_before-select (now - window) _ (IsClock-select _ (ts ++ now ∷ []) clock)
      ∙ select-select since (now - window) (ts ++ now ∷ []) h)

total-push :
    (total l l' : ℕ) → total ≡ l % u64_mod → l' ≡ l + 1 → (total + 1) % u64_mod ≡ l' % u64_mod
total-push total l l' h k = omega arith

counted-push :
    (s : MonitorState) (history : List MessageRecord) (m : MessageRecord) (topic : Text)
    → or_zero (lookup m.topic s.topic_counts) ≡ count_in m.topic history % u64_mod
    → or_zero (lookup topic s.topic_counts) ≡ count_in topic history % u64_mod
    → or_zero (lookup topic (count_topic m.topic s.topic_counts))
      ≡ count_in topic (history ++ m ∷ []) % u64_mod
unfolding count_topic
counted-push s history m topic h k =
    let raised = (or_zero (lookup m.topic s.topic_counts) + 1) % u64_mod in
    let stored = lookup-insert m.topic topic raised s.topic_counts in
    let appended = count_in-append topic history m in
    elim (Bool-cases (text_eq m.topic topic)) [
      | inl same ↦
          let e : m.topic ≡ topic = (text_eq_iff m.topic topic).0 same in
          let more : count_in topic (history ++ m ∷ []) ≡ count_in topic history + 1 =
            ground (arith, appended, same) in
          rw (stored, same)
            (total-push (or_zero (lookup m.topic s.topic_counts)) (count_in topic history) _
              (h ∙ ap (λ (t : Text). count_in t history % u64_mod) e) more)
      | inr other ↦
          let no_more : count_in topic (history ++ m ∷ []) ≡ count_in topic history =
            ground (arith, appended, other) in
          rw (stored, other, no_more) k
    ]

-- A message that comes no earlier than all before it extends the history by its record: the buffer
-- holds the newest messages up to the limit, the window exactly the times of the last minute, each
-- topic's counter the number of its messages and the total the number of all, modulo 2^64.
pub push_message-IsViewOf :
    (lossy : List ℕ → Text) (topic : Text) (payload : List ℕ) (qos : ℕ) (retain : Bool) (now : ℕ)
    (s : MonitorState) (history : List MessageRecord) (since : ℕ)
    → IsViewOf history since s
    → since ≤ now - window
    → IsClock (times history ++ now ∷ [])
    → IsViewOf
        (history ++ new_record lossy topic payload qos retain now s.message_total ∷ [])
        (now - window)
        (push_message lossy topic payload qos retain now s)
unfolding push_message
push_message-IsViewOf lossy topic payload qos retain now s history since v h clock =
    let m = new_record lossy topic payload qos retain now s.message_total in
    record {
      buffer = rw v.buffer (store_message-newest s.max_messages m history);
      recent =
          rw (v.recent, times-append history m) (recent-push since now (times history) h clock);
      counted = λ t. counted-push s history m t (v.counted topic) (v.counted t);
      total =
          total-push s.message_total (length history) _ v.total (length-append history (m ∷ []));
    }

pub new_monitor-IsViewOf : (max_messages : ℕ) → IsViewOf [] 0 (new_monitor max_messages)
unfolding new_monitor select lookup
new_monitor-IsViewOf max_messages = record {
  buffer = sym (drop-nil (0 - max max_messages 1));
  recent = refl;
  counted = λ topic. refl;
  total = refl;
}

length-drop_before :
    (limit now : ℕ) (ts : List ℕ) → limit ≤ now → 1 ≤ length (drop_before limit (ts ++ now ∷ []))
unfolding drop_before
length-drop_before limit now [] h = ground arith
length-drop_before limit now (t ∷ ts) h = ground (arith, length-drop_before limit now ts h)

-- The statistics go on counting the last message as one of the last minute, however late they are
-- made, until another message arrives.
pub refresh_stats-push_message :
    (lossy : List ℕ → Text) (topic : Text) (payload : List ℕ) (qos : ℕ) (retain : Bool)
    (now later : ℕ) (connections : List ConnectionSnapshot)
    (subscriptions : List SubscriptionSnapshot) (s : MonitorState)
    → 1
      ≤ (refresh_stats connections subscriptions later
          (push_message lossy topic payload qos retain now s)).stats.messages_last_minute
unfolding refresh_stats push_message
refresh_stats-push_message lossy topic payload qos retain now later connections subscriptions s =
    length-drop_before (now - window) now s.recent_ts (omega arith)
