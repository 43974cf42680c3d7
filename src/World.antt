-- ===== src/World.antt =====
-- The state that the services work on, and what lies outside the program: PostgreSQL as it answers
-- a statement, the Docker daemon, the host's file system, the clock.
--
-- Every call that leaves the process is an `Event`, logged newest first. What it returns is asked
-- of `Outside`, which sees the whole log, so that an answer may differ from call to call. A SQL
-- statement has its meaning on the tables of `Schema`; the database may still refuse it (a lost
-- connection, a constraint). A transaction is a copy of the tables that its commit puts in place:
-- two sessions do not interleave inside one.
pub mod Calls
use host_container.Prelude.{
  refl, ◌⊎◌, inl, inr, ℕ, ◌≡◌, ◌==◌, String, Bool, false, Option, none, some, List, ◌∷◌,
  if◌then◌else◌, arith,
}
use host_container.Schema.{Db}
use host_container.Bus.{Bus, Notification, publish}

-- A path is the list of its characters.
abbrev pub FilePath : Type 0
FilePath = List ℕ

-- So is a word of a command line.
abbrev pub Word : Type 0
Word = List ℕ

-- What `ContainerCreate` is given; `cmd` is `none` where the image's own command runs.
pub record ContainerConfig : Type 0 where
  pub image : String
  pub cmd : Option String
  pub user_label : String
  pub mount_source : FilePath
  pub mount_target : String
  pub memory : ℕ
  pub nano_cpus : ℕ
  pub exposed_port : Option String

pub data Event : Type 0 where
  begins commits statement : Event
  image_inspect image_pull : String → Event
  make_dir remove_dir : FilePath → Event
  container_create : ContainerConfig → Event
  container_start container_stop container_remove container_inspect container_restart container_logs
        container_stats :
      String → Event
  exec_create : String → List Word → Event
  exec_attach exec_read : String → Event
  copy_to_container : String → FilePath → FilePath → String → Event
  network_disconnect : String → String → Bool → Event  -- forced or not
  network_create : String → Event
  network_connect : String → String → String → Event
  network_inspect network_remove : String → Event
  send_mail : String → String → String → Event  -- whom, the subject, the link
  smtp_dial smtp_client smtp_mail smtp_rcpt : String → Event
  smtp_auth : String → String → String → Event  -- the user, the password, the host
  smtp_data smtp_close smtp_quit : Event
  smtp_write : List ℕ → Event
  smtp_send : String → String → String → List ℕ → Event  -- `smtp.SendMail`
  prints : List ℕ → Event
  otel_exporter docker_client docker_events : Event
  db_connect migrate_open migrate_up : List ℕ → Event
  hash_password : String → Event
  exec_resize : String → ℕ → ℕ → Event  -- the columns and the rows
  exec_write : String → List ℕ → Event  -- to the stdin of a session
  sleeps : ℕ → Event  -- seconds
  random_read db_ping : Event

pub data Error : Type 0 where
  refused : Event → Error  -- the call returned an error
  bad_bigint bad_uuid not_found user_not_found no_rows : Error
  container_not_found : String → Error
  plan_limit : String → ℕ → Error
  network_limit : ℕ → Error
  not_owned : String → Error  -- what it is
  no_package_manager : String → Error
  access_denied : Error
  bad_setting : String → Error
  panicked : Error

pub data Result {ℓ} (A : Type ℓ) : Type ℓ where
  ok : A → Result A
  err : Error → Result A

-- The value of a text cast by `::bigint`.
pub data Bigint : Type 0 where
  nonneg : ℕ → Bigint
  negative : ℕ → Bigint

abbrev pub matches : Bigint → ℕ → Bool
matches (nonneg n) id = n == id
matches (negative n) id = false

pub record Outside : Type 0 where
  pub fails : List Event → Bool  -- whether the newest call returned an error
  pub text : List Event → String  -- the text that the newest call returned
  pub error_text : List Event → String  -- what the newest command wrote to stderr
  pub now : List Event → ℕ
  pub to_bigint : String → Option Bigint  -- `$1::bigint`
  pub to_text : ℕ → String  -- `id::text`, and `%d` of a message
  pub texts : List Event → List String  -- the list of texts that the newest call returned
  pub to_uuid : String → Option ℕ  -- `$1::uuid`
  pub uuid_text : ℕ → String
  pub new_uuid : List Event → ℕ  -- `gen_random_uuid()` of the newest statement

-- What a handler has started in the background (`go func`), and that runs at some later time.
pub data Job : Type 0 where
  mails_verification : String → String → Job  -- the address and the name
  mails_again mails_reset : String → Job

pub record World : Type 0 where
  pub db : Db
  pub tx : Option Db
  pub bus : Bus
  pub trace : List Event
  pub container_seq : ℕ
  pub user_seq : ℕ
  pub jobs : List Job  -- newest first

-- An operation that the state outlives, whether it returns or fails.
abbrev pub Action : Type 0 → Type 0
Action A = World → Result A × World

abbrev pub pure : {A : Type 0} → A → Action A
pure a w = (ok a, w)

abbrev pub fail : {A : Type 0} → Error → Action A
fail e w = (err e, w)

infixl 5 ◌>>=◌ ◌>>◌
abbrev pub ◌>>=◌ : {A B : Type 0} → Action A → (A → Action B) → Action B
◌>>=◌ m f w = let (r, w') = m w in elim r [ ok a ↦ f a w' | err e ↦ (err e, w') ]

abbrev pub ◌>>◌ : {A B : Type 0} → Action A → Action B → Action B
m >> k = m >>= λ _. k

abbrev pub guard : Bool → Error → Action (Unit {0})
guard b e w = (if b then ok tt else err e, w)

-- A call whose error the program ignores or only logs.
abbrev pub ignore : {A : Type 0} → Action A → Action (Unit {0})
ignore m w = (ok tt, (m w).1)

-- Another error in place of the one that came back.
abbrev pub or_else : {A : Type 0} → Action A → Error → Action A
or_else m e w = let (r, w') = m w in (elim r [ ok a ↦ ok a | err _ ↦ err e ], w')

-- `defer func() { if err != nil { … } }()`
abbrev pub on_error : {A B : Type 0} → Action A → Action B → Action A
on_error body cleanup w =
    let (r, w') = body w in elim r [ ok a ↦ (ok a, w') | err e ↦ (err e, (cleanup w').1) ]

abbrev pub logged : Event → World → World
logged e w = record w { trace = e ∷ w.trace }

module _ (out : Outside) where
  abbrev pub ask : {A : Type 0} → Event → (List Event → A) → Action A
  ask e answer w =
      let t = e ∷ w.trace in (if out.fails t then err (refused e) else ok (answer t), logged e w)

  abbrev pub call : Event → Action (Unit {0})
  call e = ask e (λ _. tt)

  abbrev pub clock : Action ℕ
  clock w = (ok (out.now w.trace), w)

-- A statement goes to the pool or into the open transaction.
pub data Conn : Type 0 where
  pool in_tx : Conn

abbrev pub opened : Option Db → Db → Db
opened none d = d
opened (some t) d = t

abbrev pub view : Conn → World → Db
view pool w = w.db
view in_tx w = opened w.tx w.db

abbrev pub put : Conn → Db → World → World
put pool d w = record w { db = d }
put in_tx d w = record w { tx = some d }

module _ (out : Outside) where
  abbrev pub query : {A : Type 0} → Conn → (Db → Result A) → Action A
  query c f w =
      let w' = logged statement w in
      if out.fails w'.trace then (err (refused statement), w') else (f (view c w), w')

  abbrev pub exec : {A : Type 0} → Conn → (Db → Result (A × Db)) → Action A
  exec c f w =
      let w' = logged statement w in
      if out.fails w'.trace
      then (err (refused statement), w')
      else elim (f (view c w)) [ ok (a, d) ↦ (ok a, put c d w') | err e ↦ (err e, w') ]

  abbrev pub cast_uuid : {A : Type 0} → String → (ℕ → Result A) → Result A
  cast_uuid t f = elim (out.to_uuid t) [ none ↦ err bad_uuid | some n ↦ f n ]

  abbrev pub cast : {A : Type 0} → String → (Bigint → Result A) → Result A
  cast t f = elim (out.to_bigint t) [ none ↦ err bad_bigint | some k ↦ f k ]

  -- `Begin`, then the body, then the deferred `Rollback`, which does nothing after a commit.
  abbrev pub with_tx : {A : Type 0} → Action A → Action A
  with_tx body w =
      let (r, w') = ask out begins (λ _. tt) w in
      elim r [
        | err e ↦ (err e, w')
        | ok _ ↦
            let (r', w'') = body (record w' { tx = some w'.db }) in (r', record w'' { tx = none })
      ]

  abbrev pub commit : Action (Unit {0})
  commit w =
      let (r, w') = ask out commits (λ _. tt) w in
      elim r [
        | err e ↦ (err e, w')
        | ok _ ↦ (ok tt, record w' { db = opened w'.tx w'.db; tx = none })
      ]

-- `GlobalBus.Publish`
abbrev pub publish_live : String → Notification → Action (Unit {0})
publish_live u n w = elim (publish u n w.bus) [
  | none ↦ (err panicked, w)
  | some b ↦ (ok tt, record w { bus = b })
]

-- What PostgreSQL's casts promise: an id that was written as a text is read back.
pub record CastLaws (out : Outside) : Type 0 where
  pub read_back : (n : ℕ) → out.to_bigint (out.to_text n) ≡ some (nonneg n)

-- After a first action that returned, the second runs on what it left.
pub >>_of_ok :
    {A B : Type 0} (m : Action A) (k : Action B) (w : World) {a : A}
    → (m w).0 ≡ ok a
    → (m >> k) w ≡ k (m w).1
>>_of_ok m k w h = ground arith

-- To split on a call's outcome and keep the equation.
pub Result-cases :
    {A : Type 0} (x : Result A) → ((e : Error) × (x ≡ err e)) ⊎ ((a : A) × (x ≡ ok a))
Result-cases (err e) = inl (e, refl)
Result-cases (ok a) = inr (a, refl)
