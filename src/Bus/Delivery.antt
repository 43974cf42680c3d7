-- ===== src/Bus/Delivery.antt =====
-- Histories of calls on the bus, and what a subscriber reads.
use mathlib.Core.List.{append_assoc, append-nil}
use host_container.Prelude.{
  ℕ, zero, suc, ◌-◌, ◌≤◌, ◌≡◌, refl, sym, ◌∙◌, ◌⊎◌, String, true, false, Option, none, some, List,
  [], ◌∷◌, ◌++◌, arith, ltb, length, length-append, Bool-cases, inl, inr, take, eq_iff,
}
use host_container.Bus.{
  Notification, Channel, Bus, Received, item, capacity, subscribe, publish, take_oldest,
  unsubscribe, receive,
}
use host_container.Bus.Channels.{mem, cut_cases, mem-cut, mem-append}
use host_container.Bus.Invariant.{
  IsValid, subscribe-IsValid, deliver, delivered, delivered-IsValid, publish-delivered,
  unsubscribed, unsubscribed-IsValid,
}

-- An `unsubscribe` never panics: it closes a channel that the user's list holds and takes it off,
-- or changes nothing.
pub unsubscribe_cases :
    (u : String) (ch : ℕ) (b : Bus)
    → IsValid b
    → ((unsubscribe u ch b ≡ some b) × (mem ch (b.subscribers u) ≡ false))
      ⊎ ((rest : List ℕ) × (unsubscribe u ch b ≡ some (unsubscribed u ch rest b))
          × IsValid (unsubscribed u ch rest b)
          × (mem ch rest ≡ false))
unfolding unsubscribe
unsubscribe_cases u ch b v = elim (cut_cases ch (b.subscribers u)) [
  | inl (missing, m) ↦ inl (ground arith, m)
  | inr (rest, found, m) ↦ inr (
    rest,
    ground (arith, v.opened u ch m),
    unsubscribed-IsValid u ch rest b v m found,
    (mem-cut ch ch (b.subscribers u) rest (v.distinct u) found).0,
  )
]

unsubscribe_missing :
    (u : String) (ch : ℕ) (b : Bus) → mem ch (b.subscribers u) ≡ false → unsubscribe u ch b ≡ some b
unfolding unsubscribe
unsubscribe_missing u ch b m = ground (arith, cut_cases ch (b.subscribers u))

-- On a valid bus an `unsubscribe` does not panic, and a second one with the same channel neither: it
-- changes nothing.
unsubscribe_twice :
    (u : String) (ch : ℕ) (b : Bus)
    → IsValid b
    → (b' : Bus) × (unsubscribe u ch b ≡ some b') × (unsubscribe u ch b' ≡ some b')
unsubscribe_twice u ch b v = elim (unsubscribe_cases u ch b v) [
  | inl (e, _) ↦ (b, e, e)
  | inr (rest, e, _, gone) ↦ (
    unsubscribed u ch rest b,
    e,
    unsubscribe_missing u ch (unsubscribed u ch rest b) (ground (arith, eq_iff u u)),
  )
]

pub data Call : Type 0 where
  subscribes : String → Call
  publishes : String → Notification → Call
  unsubscribes : String → ℕ → Call
  receives : ℕ → Call

pub call : Call → Bus → Option Bus
call (subscribes u) b = some (subscribe u b).1
call (publishes u n) b = publish u n b
call (unsubscribes u ch) b = unsubscribe u ch b
call (receives ch) b = some (receive ch b).1

pub run : List Call → Bus → Option Bus
run [] b = some b
run (c ∷ cs) b = elim (call c b) [ none ↦ none | some b' ↦ run cs b' ]

take_oldest_keeps :
    (c : Channel) (buf : List Notification)
    → length c.buffer ≤ length buf
    → ((take_oldest c buf).1.closed ≡ c.closed) × (length (take_oldest c buf).1.buffer ≤ length buf)
unfolding take_oldest
take_oldest_keeps c [] h = (refl, omega arith)
take_oldest_keeps c (n ∷ rest) h = (refl, omega arith)

pub receive-IsValid : (ch : ℕ) (b : Bus) → IsValid b → IsValid (receive ch b).1
unfolding receive
receive-IsValid ch b v = record {
  made = v.made;
  opened = λ u i h. ground (arith, kept, v.opened u i h);
  distinct = v.distinct;
  owned = v.owned;
  bounded = λ i. ground (arith, kept, v.bounded i, v.bounded ch);
}
  where
    kept :
        ((take_oldest (b.channels ch) (b.channels ch).buffer).1.closed ≡ (b.channels ch).closed)
        × (length (take_oldest (b.channels ch) (b.channels ch).buffer).1.buffer
            ≤ length (b.channels ch).buffer)
    kept = take_oldest_keeps (b.channels ch) (b.channels ch).buffer (omega arith)

pub call-IsValid : (c : Call) (b : Bus) → IsValid b → (b' : Bus) × (call c b ≡ some b') × IsValid b'
unfolding call
call-IsValid (subscribes u) b v = ((subscribe u b).1, refl, subscribe-IsValid u b v)
call-IsValid (publishes u n) b v = (
  record b { channels = delivered n (b.subscribers u) b.channels },
  publish-delivered u n b v,
  delivered-IsValid n (b.subscribers u) b v,
)
call-IsValid (unsubscribes u ch) b v = elim (unsubscribe_cases u ch b v) [
  | inl (e, _) ↦ (b, e, v)
  | inr (rest, e, v', _) ↦ (unsubscribed u ch rest b, e, v')
]
call-IsValid (receives ch) b v = ((receive ch b).1, refl, receive-IsValid ch b v)

-- Whatever calls are made on a valid bus, such as the empty one, and in whatever order, none panics,
-- and the bus that they leave is valid: every buffer within its capacity, every subscribed channel
-- open, in one list and there once.
pub run-IsValid :
    (cs : List Call) (b : Bus) → IsValid b → (b' : Bus) × (run cs b ≡ some b') × IsValid b'
unfolding run
run-IsValid [] b v = (b, refl, v)
run-IsValid (c ∷ cs) b v =
    let (b', e, v') = call-IsValid c b v in
    let (b'', e', v'') = run-IsValid cs b' v' in (b'', rw (e, run) e', v'')

pub publish_each : String → List Notification → Bus → Option Bus
publish_each u [] b = some b
publish_each u (n ∷ ns) b = elim (publish u n b) [ none ↦ none | some b' ↦ publish_each u ns b' ]

-- A reader that takes `k` times from its channel, and keeps the items.
collect : Received → List Notification → List Notification
collect (item n) rest = n ∷ rest
collect _ rest = rest

pub drain : ℕ → ℕ → Bus → List Notification
unfolding collect
drain zero ch b = []
drain (suc k) ch b = let (r, b') = receive ch b in collect r (drain k ch b')

take_nil : (k : ℕ) → take {A = Notification} k [] ≡ []
take_nil zero = refl
take_nil (suc k) = refl

take_pos :
    (k : ℕ) (n : Notification) (ns : List Notification) → take (suc k) (n ∷ ns) ≡ n ∷ take k ns
take_pos k n ns = refl

-- What one send adds and leaves room for is what the room held before it.
take-deliver :
    (n : Notification) (c : Channel) (ns : List Notification)
    → (deliver n c).buffer ++ take (capacity - length (deliver n c).buffer) ns
      ≡ c.buffer ++ take (capacity - length c.buffer) (n ∷ ns)
take-deliver n c ns = elim (Bool-cases (ltb (length c.buffer) capacity)) [
  | inl room ↦
      let left : capacity - length c.buffer ≡ suc (capacity - length (c.buffer ++ n ∷ [])) =
        ground (arith, length-append {0} c.buffer (n ∷ [])) in
      rw (room, left) (append_assoc c.buffer (n ∷ []) _)
  | inr full ↦ let left : capacity - length c.buffer ≡ 0 = ground arith in rw (full, left)
]

-- A burst fills the room that a buffer has, in order, and the rest of the burst is lost.
publish_each_buffer :
    (u : String) (ch : ℕ) (ns : List Notification) (b : Bus)
    → IsValid b
    → mem ch (b.subscribers u) ≡ true
    → (b' : Bus) × (publish_each u ns b ≡ some b')
      × ((b'.channels ch).buffer
          ≡ (b.channels ch).buffer ++ take (capacity - length (b.channels ch).buffer) ns)
unfolding publish_each
publish_each_buffer u ch [] b v m = (b, refl, rw take_nil (sym (append-nil _)))
publish_each_buffer u ch (n ∷ ns) b v m =
    let b1 : Bus = record b { channels = delivered n (b.subscribers u) b.channels } in
    let (b', e, h) = publish_each_buffer u ch ns b1 (delivered-IsValid n (b.subscribers u) b v) m in
    (
      b',
      rw (publish-delivered u n b v, publish_each) e,
      h ∙ rw m (take-deliver n (b.channels ch) ns),
    )

receive-item :
    (ch : ℕ) (b : Bus) {n : Notification} {rest : List Notification}
    → (b.channels ch).buffer ≡ n ∷ rest
    → ((receive ch b).0 ≡ item n) × (((receive ch b).1.channels ch).buffer ≡ rest)
unfolding receive
receive-item ch b h = ground arith

drain_buffer :
    (ch : ℕ) (b : Bus) (buf : List Notification)
    → (b.channels ch).buffer ≡ buf
    → drain (length buf) ch b ≡ buf
unfolding drain
drain_buffer ch b [] h = refl
drain_buffer ch b (n ∷ rest) h =
    let (first, left) = receive-item ch b h in
    cc (first, drain_buffer ch (receive ch b).1 rest left)

subscribe-mem :
    (u : String) (b : Bus) → mem (subscribe u b).0 ((subscribe u b).1.subscribers u) ≡ true
unfolding subscribe
subscribe-mem u b = ground (arith, eq_iff u u, mem-append b.next (b.subscribers u) (b.next ∷ []))

subscribe-empty :
    (u : String) (b : Bus) → ((subscribe u b).1.channels (subscribe u b).0).buffer ≡ []
unfolding subscribe
subscribe-empty u b = ground arith

-- On a valid bus, a new subscriber to whose user items are then published reads them in their order,
-- and of a burst the first 32.
pub subscribe-publish-drain :
    (u : String) (ns : List Notification) (b : Bus)
    → IsValid b
    → let (ch, b1) = subscribe u b in
      (b2 : Bus) × (publish_each u ns b1 ≡ some b2)
      × (drain (length (take capacity ns)) ch b2 ≡ take capacity ns)
subscribe-publish-drain u ns b v =
    let (ch, b1) = subscribe u b in
    let (b2, e, h) = publish_each_buffer u ch ns b1 (subscribe-IsValid u b v) (subscribe-mem u b) in
    let full : (b2.channels ch).buffer ≡ take capacity ns = h ∙ rw (subscribe-empty u b) in
    (b2, e, drain_buffer ch b2 (take capacity ns) full)
