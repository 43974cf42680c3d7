-- ===== src/Bus.antt =====
-- service/notificationBus.go: the in-memory broker of live notifications.
--
-- A Go channel is an index into `channels`, so two maps that hold the same channel share it.
-- `make(chan Notification, 32)` appends a channel, and a channel is never reused. Each method is taken
-- as one step: a state is what the bus is between two calls. Subscribe and unsubscribe hold the lock
-- alone; two Publish, which hold it to read, may overlap in the program and are one after the other here.
pub mod Channels
pub mod Delivery
pub mod Invariant
use host_container.Prelude.{
  ℕ, zero, suc, ◌+◌, ◌≡◌, String, Bool, true, false, Option, none, some, List, [], ◌∷◌, ◌++◌, ltb,
  ◌==◌, if◌then◌else◌, length, str_eq,
}

pub record Notification : Type 0 where
  pub id : String
  pub kind : String
  pub title : String
  pub body : String
  pub created_at : ℕ

pub record Channel : Type 0 where
  pub buffer : List Notification  -- oldest first
  pub closed : Bool

-- `channels` holds those made so far, which are the indices below `next`.
pub record Bus : Type 0 where
  pub channels : ℕ → Channel
  pub next : ℕ
  pub subscribers : String → List ℕ

abbrev pub capacity : ℕ
capacity = 32

abbrev pub fresh : Channel
fresh = record { buffer = []; closed = false }

-- The empty map of `GlobalBus`.
abbrev pub empty : Bus
empty = record { channels = λ i. fresh; next = 0; subscribers = λ u. [] }

abbrev pub set_channel : (ℕ → Channel) → ℕ → Channel → ℕ → Channel
set_channel cs i c j = if i == j then c else cs j

abbrev pub set_subscribers : (String → List ℕ) → String → List ℕ → String → List ℕ
set_subscribers subs u l v = if str_eq u v then l else subs v

unfoldable pub subscribe : String → Bus → ℕ × Bus
subscribe u b = (
  b.next,
  record {
    channels = set_channel b.channels b.next fresh;
    next = b.next + 1;
    subscribers = set_subscribers b.subscribers u (b.subscribers u ++ b.next ∷ []);
  },
)

-- `select { case ch <- n: default: }`. A send on a closed channel panics, which is `none`.
pub try_send : Notification → Channel → Option Channel
try_send n c =
    if c.closed
    then none
    else some
        (if ltb (length c.buffer) capacity then record c { buffer = c.buffer ++ n ∷ [] } else c)

pub send_all : Notification → List ℕ → (ℕ → Channel) → Option (ℕ → Channel)
send_all n [] cs = some cs
send_all n (i ∷ is) cs = elim (try_send n (cs i)) [
  | none ↦ none
  | some c ↦ send_all n is (set_channel cs i c)
]

pub publish : String → Notification → Bus → Option Bus
publish u n b = elim (send_all n (b.subscribers u) b.channels) [
  | none ↦ none
  | some cs ↦ some (record b { channels = cs })
]

-- The loop over `subs`: the list without the first `ch`, or `none` where it is not there.
pub cut : ℕ → List ℕ → Option (List ℕ)
cut ch [] = none
cut ch (i ∷ is) =
    if i == ch then some is else elim (cut ch is) [ none ↦ none | some rest ↦ some (i ∷ rest) ]

-- `close` of a closed channel panics, which is `none`.
pub close_channel : ℕ → Bus → Option Bus
close_channel ch b =
    if (b.channels ch).closed
    then none
    else some (record b {
      channels = set_channel b.channels ch (record (b.channels ch) { closed = true });
    })

pub unsubscribe : String → ℕ → Bus → Option Bus
unfolding close_channel
unsubscribe u ch b = elim (cut ch (b.subscribers u)) [
  | none ↦ some b
  | some rest ↦ close_channel ch (record b { subscribers = set_subscribers b.subscribers u rest })
]

-- `<-ch`: the oldest item; on an empty channel it blocks, or gives the zero value if it is closed.
pub data Received : Type 0 where
  item : Notification → Received
  zero_value blocked : Received

take_oldest : Channel → List Notification → Received × Channel
take_oldest c [] = (if c.closed then zero_value else blocked, c)
take_oldest c (n ∷ rest) = (item n, record c { buffer = rest })

pub receive : ℕ → Bus → Received × Bus
unfolding take_oldest
receive ch b =
    let (r, c) = take_oldest (b.channels ch) (b.channels ch).buffer in
    (r, record b { channels = set_channel b.channels ch c })
