-- ===== src/Tests/Pages.antt =====
-- Examples: the API keys, the pages of the administrators, the stream and the rate limit.
use host_container.Prelude.{
  ℕ, ◌≡◌, ◌-◌, refl, String, Bool, true, false, none, some, List, [], ◌∷◌, ltb, str_eq, ◌≢◌, ap,
  take,
}
use mathlib.Core.Bool.{true≢false}
use host_container.World.{nonneg, World, ok}
use host_container.Tables.{select}
use host_container.Bus.Invariant.{delivered, IsValid}
use host_container.Recovery.{persist_and_notify}
use host_container.Notices.{list, listed, newest_first, of_user}
use host_container.Notices.Listed.{row_of, list-persist_and_notify}
use host_container.Http.{get, payload}
use host_container.Auth.{resolve_api_key}
use host_container.ApiKeys.{NewKey, count_keys, raw_key, insert_key, create_key}
use host_container.ApiKeys.Issue.{create_key-resolve}
use host_container.Networks.Handlers.{user_or_empty}
use host_container.Bus.{Bus, subscribe}
use host_container.Bus.Channels.{mem}
use host_container.Bus.Delivery.{publishes}
use host_container.Notices.Stream.{received, ticked, meanwhile, Frame, streamed, stream}
use host_container.Notices.Closing.{stream_closes}
use host_container.RateLimit.{Bucket}
use host_container.RateLimit.Alone.{answers, answers_to, times_of, alone, answers-alone}
use host_container.Tests.{calm, start, listening, listening-IsValid, note}
use host_container.Tests.Passwords.{lax_jwt}

abbrev plain_hash : String → String
plain_hash k = k

abbrev any_name : String → Bool
any_name n = true

abbrev keyed : World
keyed = (create_key calm plain_hash any_name (some "1") (some "ci") start).1

create_key-resolve_example :
    (made : NewKey) × (id : ℕ) × ((create_key calm plain_hash any_name
        (some "1")
        (some "ci")
        start).0.body
      ≡ payload made)
    × (calm.to_bigint (user_or_empty (some "1")) ≡ some (nonneg id))
    × ((resolve_api_key calm lax_jwt plain_hash made.key keyed).0 ≡ ok (calm.to_text id))
unfolding create_key count_keys raw_key insert_key
create_key-resolve_example =
    create_key-resolve calm plain_hash any_name (some "1") (some "ci") start lax_jwt keyed refl refl
      refl

named : ◌≢◌ {A = String} "1" ""
named h = true≢false (ap (λ (s : String). str_eq s "1") h)

stream_closes_example :
    (sent : List Frame) × (b' : Bus) × (stream
        (some "1")
        true
        (ticked ∷ meanwhile (publishes "1" note) ∷ received ∷ [])
        listening
      ≡ (streamed sent, b'))
    × IsValid b'
    × (mem (subscribe "1" listening).0 (b'.subscribers "1") ≡ false)
stream_closes_example =
    stream_closes "1" (ticked ∷ meanwhile (publishes "1" note) ∷ received ∷ []) listening
      listening-IsValid named

-- A bucket that holds a number of tokens and is never filled.
abbrev spent : Bucket ℕ
spent = record { new_limiter = 1; allow = λ now n. (ltb 0 n, n - 1) }

answers-alone_example :
    answers_to spent "a" (answers spent (("a", 0) ∷ ("b", 1) ∷ ("a", 2) ∷ []) (λ x. none))
    ≡ alone spent 1 (times_of spent "a" (("a", 0) ∷ ("b", 1) ∷ ("a", 2) ∷ []))
answers-alone_example = answers-alone spent "a" (("a", 0) ∷ ("b", 1) ∷ ("a", 2) ∷ []) (λ x. none)

list-persist_and_notify_example :
    ((list calm get (some "1") (persist_and_notify calm "1" note start).1).0 ≡ record {
      status = 200;
      body =
          payload
            (listed (row_of 1 note 0 ∷ take 19 (newest_first (select (of_user (nonneg 1)) []))));
    })
    × ((persist_and_notify calm "1" note start).1.bus.channels
        ≡ delivered note (listening.subscribers "1") listening.channels)
list-persist_and_notify_example =
    list-persist_and_notify calm "1" note start refl refl refl refl listening-IsValid tt
