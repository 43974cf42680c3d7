-- ===== src/Bus/Invariant.antt =====
-- What holds of the bus between two calls: no call breaks it, so no call panics.
use mathlib.Core.Path.{fun_ext}
use host_container.Prelude.{
  ℕ, ◌≤◌, ◌<◌, ◌≡◌, refl, ap, ◌∙◌, String, true, false, some, List, [], ◌∷◌, ◌++◌, arith, ltb, ◌==◌,
  if◌then◌else◌, length, length-append, eq_iff,
}
use host_container.Bus.{
  Notification, Channel, Bus, capacity, empty, set_channel, set_subscribers, subscribe, try_send,
  send_all, publish, cut,
}
use host_container.Bus.Channels.{mem, Distinct, mem-append, Distinct-snoc, mem-cut, Distinct-cut}

-- A subscribed channel was made, is open, stands once in its list and in no other user's list; no
-- buffer holds more than its capacity.
pub record IsValid (b : Bus) : Type 0 where
  pub made : (u : String) (i : ℕ) → mem i (b.subscribers u) ≡ true → i < b.next
  pub opened : (u : String) (i : ℕ) → mem i (b.subscribers u) ≡ true → (b.channels i).closed ≡ false
  pub distinct : (u : String) → Distinct (b.subscribers u)
  pub owned :
      (u v : String) (i : ℕ)
      → mem i (b.subscribers u) ≡ true
      → mem i (b.subscribers v) ≡ true
      → u ≡ v
  pub bounded : (i : ℕ) → length (b.channels i).buffer ≤ capacity

pub empty-IsValid : IsValid empty
empty-IsValid = record {
  made = λ u i h. cc;
  opened = λ u i h. cc;
  distinct = λ u. tt;
  owned = λ u v i h k. cc;
  bounded = λ i. omega arith;
}

-- The channel after a send: the item is appended where there is room, and dropped where not.
abbrev pub deliver : Notification → Channel → Channel
deliver n c = if ltb (length c.buffer) capacity then record c { buffer = c.buffer ++ n ∷ [] } else c

abbrev pub delivered : Notification → List ℕ → (ℕ → Channel) → ℕ → Channel
delivered n is cs j = if mem j is then deliver n (cs j) else cs j

abbrev AllOpen : (ℕ → Channel) → List ℕ → Type 0
AllOpen cs is = (i : ℕ) → mem i is ≡ true → (cs i).closed ≡ false

mem_self : (i : ℕ) (is : List ℕ) → mem i (i ∷ is) ≡ true
mem_self i is = ground arith

mem_tail : (i j : ℕ) (is : List ℕ) → mem i is ≡ true → mem i (j ∷ is) ≡ true
mem_tail i j is h = ground arith

delivered_step :
    (n : Notification) (i : ℕ) (is : List ℕ) (cs : ℕ → Channel) (j : ℕ)
    → mem i is ≡ false
    → delivered n is (set_channel cs i (deliver n (cs i))) j ≡ delivered n (i ∷ is) cs j
delivered_step n i is cs j h = ground arith

try_send_open :
    (n : Notification) (c : Channel) → c.closed ≡ false → try_send n c ≡ some (deliver n c)
unfolding try_send
try_send_open n c h = rw h

open_kept :
    (n : Notification) (i : ℕ) (is : List ℕ) (cs : ℕ → Channel)
    → AllOpen cs (i ∷ is)
    → AllOpen (set_channel cs i (deliver n (cs i))) is
open_kept n i is cs h j m = ground (arith, h i (mem_self i is), h j (mem_tail j i is m))

pub send_all-delivered :
    (n : Notification) (is : List ℕ) (cs : ℕ → Channel)
    → Distinct is
    → AllOpen cs is
    → send_all n is cs ≡ some (delivered n is cs)
unfolding send_all
send_all-delivered n [] cs d h = refl
send_all-delivered n (i ∷ is) cs d h =
    rw (try_send_open n (cs i) (h i (mem_self i is)), send_all)
      (send_all-delivered n is (set_channel cs i (deliver n (cs i))) d.1 (open_kept n i is cs h)
        ∙ ap some (fun_ext (λ j. delivered_step n i is cs j d.0)))

pub subscribe-IsValid : (u : String) (b : Bus) → IsValid b → IsValid (subscribe u b).1
unfolding subscribe
subscribe-IsValid u b v = record {
  made = λ w i h.
      ground
        (arith, eq_iff u w, mem-append i (b.subscribers u) (b.next ∷ []), v.made w i, v.made u i);
  opened = λ w i h. ground (
    arith,
    eq_iff u w,
    mem-append i (b.subscribers u) (b.next ∷ []),
    v.made w i,
    v.made u i,
    v.opened w i,
    v.opened u i,
  );
  distinct = λ w.
      ground (
        arith,
        v.distinct w,
        v.made u b.next,
        Distinct-snoc b.next (b.subscribers u),
        v.distinct u,
      );
  owned = λ w x i h k. ground (
    arith,
    eq_iff u w,
    eq_iff u x,
    mem-append i (b.subscribers u) (b.next ∷ []),
    v.made w i,
    v.made x i,
    v.made u i,
    v.owned w x i,
    v.owned u x i,
    v.owned w u i,
  );
  bounded = λ i. ground (arith, v.bounded i);
}

deliver_bounded :
    (n : Notification) (c : Channel)
    → length c.buffer ≤ capacity
    → length (deliver n c).buffer ≤ capacity
deliver_bounded n c h = ground (arith, length-append {0} c.buffer (n ∷ []))

pub delivered-IsValid :
    (n : Notification) (is : List ℕ) (b : Bus)
    → IsValid b
    → IsValid (record b { channels = delivered n is b.channels })
delivered-IsValid n is b v = record {
  made = v.made;
  opened = λ u i h. ground (arith, v.opened u i h);
  distinct = v.distinct;
  owned = v.owned;
  bounded = λ i. ground (arith, v.bounded i, deliver_bounded n (b.channels i) (v.bounded i));
}

-- On a valid bus a publication does not panic: it appends the item to every channel of the user that
-- has room, and touches nothing else.
pub publish-delivered :
    (u : String) (n : Notification) (b : Bus)
    → IsValid b
    → publish u n b ≡ some (record b { channels = delivered n (b.subscribers u) b.channels })
unfolding publish
publish-delivered u n b v =
    rw (send_all-delivered n (b.subscribers u) b.channels (v.distinct u) (v.opened u), publish)

-- The bus after `unsubscribe` of a channel that the user's list holds.
abbrev pub unsubscribed : String → ℕ → List ℕ → Bus → Bus
unsubscribed u ch rest b = record b {
  channels = set_channel b.channels ch (record (b.channels ch) { closed = true });
  subscribers = set_subscribers b.subscribers u rest;
}

pub unsubscribed-IsValid :
    (u : String) (ch : ℕ) (rest : List ℕ) (b : Bus)
    → IsValid b
    → mem ch (b.subscribers u) ≡ true
    → cut ch (b.subscribers u) ≡ some rest
    → IsValid (unsubscribed u ch rest b)
unsubscribed-IsValid u ch rest b v m e = record {
  made = λ w i h. ground (arith, eq_iff u w, gone i, v.made w i, v.made u i);
  opened = λ w i h. ground (arith, eq_iff u w, gone i, v.opened w i, v.opened u i, v.owned u w i);
  distinct =
      λ w. ground (arith, v.distinct w, Distinct-cut ch (b.subscribers u) rest (v.distinct u) e);
  owned = λ w x i h k.
      ground (arith, eq_iff u w, eq_iff u x, gone i, v.owned w x i, v.owned u x i, v.owned w u i);
  bounded = λ i. ground (arith, v.bounded i, v.bounded ch);
}
  where
    gone :
        (i : ℕ) → (mem ch rest ≡ false) × ((i == ch) ≡ false → mem i rest ≡ mem i (b.subscribers u))
    gone i = mem-cut ch i (b.subscribers u) rest (v.distinct u) e
