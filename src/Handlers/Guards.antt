-- ===== src/Handlers/Guards.antt =====
-- What a request cannot reach: the guards of the handlers.
use host_container.Prelude.{
  map, ap, refl, ◌∙◌, Option, [], ◌≡◌, String, true, false, some, List, ◌∷◌, arith, ◌≢◌, str_eq,
  none, if◌then◌else◌, Bool-cases, inl, inr, ◌⊎◌,
}
use host_container.Schema.{TemplateRow}
use host_container.Tables.{find}
use host_container.World.{FilePath, Outside, World, statement, logged}
use host_container.Paths.{is_within, Component, slash, dot_dot, clean, join, join_slash, base}
use host_container.Text.{has_prefix}
use host_container.Paths.Components.{IsPlain}
use host_container.Paths.Confinement.{workspace_name, clean_plain, is_within_plain, upload_escapes}
use host_container.Http.{Method, post, is_given}
use host_container.Handlers.{
  CreateRequest, create, run_create, holds_image, is_allowed, get_allowed_images, check_image,
}
use host_container.Handlers.Files.{
  destination, UploadForm, form, target_folder, read_file, write_file, upload_file, download_file,
}

module _ (out : Outside) (m : Method) (project_id : String) (w : World) where
  -- A path that the guard refuses is neither read, written nor downloaded: no call leaves the process,
  -- and nothing changes.
  pub outside_untouched :
      (p : FilePath)
      → is_within p ≡ false
      → (content : String)
      → ((read_file out m project_id p w).1 ≡ w)
        × ((write_file out m project_id (some (record { path = p; content = content })) w).1 ≡ w)
        × ((download_file out m project_id p w).1 ≡ w)
  unfolding read_file write_file download_file
  outside_untouched p h content = (ground arith, ground arith, ground arith)

  -- An upload to a folder that the guard refuses calls nothing and changes nothing.
  upload_outside_untouched :
      (f : UploadForm)
      → is_within (target_folder f.folder) ≡ false
      → (upload_file out m project_id (form f) w).1 ≡ w
  unfolding upload_file
  upload_outside_untouched f h = ground arith

holds_image-find :
    (image : String) (ts : List TemplateRow)
    → holds_image image (map (λ t. t.image) ts) ≡ false
    → find (λ (t : TemplateRow). str_eq t.image image) ts ≡ none
unfolding holds_image
holds_image-find image [] h = refl
holds_image-find image (t ∷ ts) h = ground (arith, holds_image-find image ts)

holds_image-found :
    (image : String) (ts : List TemplateRow)
    → holds_image image (map (λ t. t.image) ts) ≡ true
    → (t : TemplateRow) × (find (λ (t : TemplateRow). str_eq t.image image) ts ≡ some t)
unfolding holds_image
holds_image-found image [] h = cc
holds_image-found image (t ∷ ts) h = elim (Bool-cases (str_eq t.image image)) [
  | inl hit ↦ (t, rw hit refl)
  | inr miss ↦ rw miss (holds_image-found image ts (ground arith))
]

module _ (out : Outside) (base : FilePath) (req : CreateRequest) (w : World) where
  -- The image that a request asks for.
  abbrev pub asked_image : String
  asked_image = if str_eq req.image "" then "alpine:latest" else req.image

  -- A request to create a container that gives the project's id and name and the user is refused with
  -- 400, with nothing called but the query for the templates and nothing changed, exactly if that
  -- query is answered, there are templates, and none has the image that it asks for (the default
  -- one, where it names none). Otherwise, also where the templates cannot be read or there are none,
  -- the creation runs with that image.
  pub create_checked :
      is_given req.project.id ≡ true
      → is_given req.project.name ≡ true
      → is_given req.project.user_id ≡ true
      → ((create out base post (some req) w
            ≡ run_create out base (record req { image = asked_image }) (logged statement w))
          × ((out.fails (statement ∷ w.trace) ≡ true)
              ⊎ ((w.db.templates ≡ [])
                  ⊎ ((t : TemplateRow) × (find
                          (λ (t : TemplateRow). str_eq t.image asked_image)
                          w.db.templates
                        ≡ some t)))))
        ⊎ (((create out base post (some req) w).0.status ≡ 400)
            × ((create out base post (some req) w).1 ≡ logged statement w)
            × (out.fails (statement ∷ w.trace) ≡ false)
            × (w.db.templates ≢ [])
            × (find (λ (t : TemplateRow). str_eq t.image asked_image) w.db.templates ≡ none))
  unfolding create check_image get_allowed_images is_allowed
  create_checked a b c = elim (Bool-cases (out.fails (statement ∷ w.trace))) [
    | inl lost ↦ inl (ground arith, inl lost)
    | inr read ↦ by_templates read w.db.templates refl
  ]
    where
      image_in : List TemplateRow → Option TemplateRow
      image_in = find (λ (t : TemplateRow). str_eq t.image asked_image)

      by_templates :
          out.fails (statement ∷ w.trace) ≡ false
          → (ts : List TemplateRow) → w.db.templates ≡ ts
          → ((create out base post (some req) w
                ≡ run_create out base (record req { image = asked_image }) (logged statement w))
              × ((out.fails (statement ∷ w.trace) ≡ true)
                  ⊎ ((w.db.templates ≡ [])
                      ⊎ ((t : TemplateRow) × (find
                              (λ (t : TemplateRow). str_eq t.image asked_image)
                              w.db.templates
                            ≡ some t)))))
            ⊎ (((create out base post (some req) w).0.status ≡ 400)
                × ((create out base post (some req) w).1 ≡ logged statement w)
                × (out.fails (statement ∷ w.trace) ≡ false)
                × (w.db.templates ≢ [])
                × (find (λ (t : TemplateRow). str_eq t.image asked_image) w.db.templates ≡ none))
      by_templates read [] e = inl (ground arith, inr (inl e))
      by_templates read (t ∷ ts) e =
          elim (Bool-cases (holds_image asked_image (map (λ t. t.image) (t ∷ ts)))) [
            | inl listed ↦
                let (u, hit) = holds_image-found asked_image (t ∷ ts) listed in
                inl (ground arith, inr (inr (u, ap image_in e ∙ hit)))
            | inr unlisted ↦
                let miss = holds_image-find asked_image (t ∷ ts) unlisted in
                inr (ground arith, ground arith, read, (λ x. cc), ap image_in e ∙ miss)
          ]

base-dot_dot : base dot_dot ≡ dot_dot
unfolding base
base-dot_dot = refl

-- A file that names itself `..`, uploaded to a folder at the top that the guard lets through, such as
-- the workspace, is written to the root directory, which the guard would refuse.
pub upload_to_root :
    (c : Component) (content : Option String)
    → IsPlain c
    → has_prefix workspace_name c ≡ true
    → let f : UploadForm = record { folder = slash ∷ c; filename = dot_dot; content = content } in
      (is_within (target_folder f.folder) ≡ true)
      × (destination f ≡ slash ∷ [])
      × (is_within (destination f) ≡ false)
unfolding destination target_folder join_slash
upload_to_root c content a h =
    let cleaned : clean (slash ∷ c) ≡ slash ∷ c = clean_plain c [] (a, tt) in
    let (root, refused) = upload_escapes c a in
    let at_root : join (clean (slash ∷ c) ∷ base dot_dot ∷ []) ≡ slash ∷ [] =
      rw (cleaned, base-dot_dot) root in
    (is_within_plain c [] (a, tt) ∙ h, at_root, ap is_within at_root ∙ refused)
