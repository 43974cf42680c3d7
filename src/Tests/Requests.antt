-- ===== src/Tests/Requests.antt =====
-- Examples: the requests and their paths.
use host_container.Schema.{TemplateRow}
use host_container.Tables.{find}
use host_container.Handlers.{run_create, CreateRequest, create}
use host_container.World.{statement, logged}
use host_container.Prelude.{
  str_eq, none, ◌⊎◌, true, ◌≢◌, false, ℕ, ◌≡◌, refl, some, List, [], ◌∷◌, All,
}
use host_container.Text.{codes, has_prefix}
use host_container.Paths.{
  slash, clean, join_slash, is_within, split_slash, grow_first, is_rooted, climb, push, resolve,
  render, Component,
}
use host_container.Paths.Components.{IsPlain}
use host_container.Paths.Confinement.{
  workspace_name, clean_plain, is_within_plain, is_within-confined,
}
use host_container.Http.{get, post}
use host_container.Handlers.Files.{read_file, write_file, download_file}
use host_container.Handlers.Guards.{outside_untouched, create_checked}
use host_container.Tests.{calm, start, blog}

beside_IsPlain : IsPlain (codes "workspace-evil")
beside_IsPlain = record { filled = refl; not_dot = refl; not_dot_dot = refl; no_slash = refl }

workspace_IsPlain : IsPlain (codes "workspace")
workspace_IsPlain = record { filled = refl; not_dot = refl; not_dot_dot = refl; no_slash = refl }

clean_plain_example :
    clean (slash ∷ join_slash (codes "workspace" ∷ codes "workspace-evil" ∷ []))
    ≡ slash ∷ join_slash (codes "workspace" ∷ codes "workspace-evil" ∷ [])
clean_plain_example =
    clean_plain (codes "workspace") (codes "workspace-evil" ∷ [])
      (workspace_IsPlain, (beside_IsPlain, tt))

is_within_plain_example :
    is_within (slash ∷ join_slash (codes "workspace-evil" ∷ []))
    ≡ has_prefix workspace_name (codes "workspace-evil")
is_within_plain_example = is_within_plain (codes "workspace-evil") [] (beside_IsPlain, tt)

abbrev detour : List ℕ
detour = codes "/a/../workspace/x"

is_within-confined_example :
    (c : Component) × (cs : List Component) × (clean detour ≡ slash ∷ join_slash (c ∷ cs))
    × (has_prefix workspace_name c ≡ true)
    × All IsPlain (c ∷ cs)
unfolding is_within clean split_slash grow_first is_rooted push climb resolve render join_slash
is_within-confined_example = is_within-confined detour refl

outside_untouched_example :
    ((read_file calm get "1" (codes "/etc") start).1 ≡ start)
    × ((write_file calm get "1" (some (record { path = codes "/etc"; content = "x" })) start).1
        ≡ start)
    × ((download_file calm get "1" (codes "/etc") start).1 ≡ start)
unfolding is_within clean split_slash grow_first is_rooted push climb resolve render join_slash
outside_untouched_example = outside_untouched calm get "1" start (codes "/etc") refl "x"

abbrev request : CreateRequest
request = record { project = blog; image = "evil"; port = "" }

create_checked_example :
    ((create calm (codes "/p") post (some request) start
        ≡ run_create calm (codes "/p") (record request { image = "evil" }) (logged statement start))
      × ((calm.fails (statement ∷ start.trace) ≡ true)
          ⊎ ((start.db.templates ≡ [])
              ⊎ ((t : TemplateRow) × (find
                      (λ (t : TemplateRow). str_eq t.image "evil")
                      start.db.templates
                    ≡ some t)))))
    ⊎ (((create calm (codes "/p") post (some request) start).0.status ≡ 400)
        × ((create calm (codes "/p") post (some request) start).1 ≡ logged statement start)
        × (calm.fails (statement ∷ start.trace) ≡ false)
        × (start.db.templates ≢ [])
        × (find (λ (t : TemplateRow). str_eq t.image "evil") start.db.templates ≡ none))
create_checked_example = create_checked calm (codes "/p") request start refl refl refl
