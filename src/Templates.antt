-- ===== src/Templates.antt =====
-- repository/templateRepo.go and service/templateHandler.go: the catalogue of templates. No sign-in is
-- needed.
--
-- The database's order of texts (its collation) and `json.Unmarshal` of the two JSON columns are
-- parameters. The column of the time is not shown and left out. The driver reads an id as a cast does.
pub mod Catalogue
use host_container.Schema.{Db, TemplateRow}
use host_container.Tables.{find, select}
use host_container.World.{
  Outside, Action, Result, ok, err, Error, no_rows, Bigint, matches, pool, cast, query,
}
use host_container.Http.{
  Method, is_get, Handler, message, failed, payload, respond, unless, answer, is_given,
}
use host_container.Prelude.{
  List, Option, String, ℕ, Bool, [], none, if◌then◌else◌, true, ◌∷◌, map, some, false, not, str_eq,
  ◌&&◌,
}

pub record PortMapping : Type 0 where
  pub internal : ℕ
  pub external : ℕ
  pub protocol : String

pub record TemplateResponse : Type 0 where
  pub id : String
  pub name : String
  pub description : String
  pub image : String
  pub category : String
  pub tags : List String
  pub popular : Bool
  pub icon : String  -- empty where there is none
  pub default_ports : List PortMapping

pub data Payload : Type 0 where
  listed : List TemplateResponse → Payload
  found : TemplateResponse → Payload

pub record Json : Type 0 where
  pub tags_of : String → Option (List String)
  pub ports_of : String → Option (List PortMapping)

abbrev pub or_empty : {A : Type 0} → Option (List A) → List A
or_empty none = []
or_empty (some xs) = xs

-- COALESCE(icon, '')
abbrev pub icon_of : TemplateRow → String
icon_of t = elim t.icon [ none ↦ "" | some i ↦ i ]

unfoldable pub to_response : Json → (ℕ → String) → TemplateRow → TemplateResponse
to_response json to_text t = record {
  id = to_text t.id;
  name = t.name;
  description = t.description;
  image = t.image;
  category = t.category;
  tags = or_empty (json.tags_of t.tags);
  popular = t.popular;
  icon = icon_of t;
  default_ports = or_empty (json.ports_of t.default_ports);
}

-- WHERE category = $1, where a category other than `all` is asked for.
abbrev pub is_asked : String → TemplateRow → Bool
is_asked category t =
    if not (str_eq category "") && not (str_eq category "all")
    then str_eq t.category category
    else true

module _ (le : String → String → Bool) where
  -- popular DESC, name ASC
  abbrev pub comes_first : TemplateRow → TemplateRow → Bool
  comes_first t u = elim t.popular [
    | true ↦ if u.popular then le t.name u.name else true
    | false ↦ if u.popular then false else le t.name u.name
  ]

  pub insert_template : TemplateRow → List TemplateRow → List TemplateRow
  insert_template t [] = t ∷ []
  insert_template t (u ∷ us) =
      let later = u ∷ insert_template t us in if comes_first t u then t ∷ u ∷ us else later

  pub order_templates : List TemplateRow → List TemplateRow
  unfolding insert_template
  order_templates [] = []
  order_templates (t ∷ ts) = insert_template t (order_templates ts)

module _ (out : Outside) (json : Json) (le : String → String → Bool) where
  pub get_templates : String → Action (List TemplateRow)
  get_templates category =
      query out pool λ d. ok (order_templates le (select (is_asked category) d.templates))

  pub get_template_by_id : String → Action TemplateRow
  get_template_by_id id = query out pool λ d. cast out id λ k.
      elim (find (λ (t : TemplateRow). matches k t.id) d.templates) [
        | none ↦ err no_rows
        | some t ↦ ok t
      ]

  pub list_templates : Method → String → Handler Payload
  list_templates m category = unless (is_get m) 405 "method not allowed" (
      answer (get_templates category) (λ e. respond 500 (failed e))
        (λ ts. respond 200 (payload (listed (map (to_response json out.to_text) ts)))))

  pub get_template : Method → String → Handler Payload
  get_template m id = unless (is_get m) 405 "method not allowed" (
      unless (is_given id) 400 "id is required" (
        answer (get_template_by_id id) (λ e. respond 404 (message "template not found"))
          (λ t. respond 200 (payload (found (to_response json out.to_text t))))))
