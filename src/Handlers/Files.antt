-- ===== src/Handlers/Files.antt =====
-- The handlers of a container's files (service/ContainerHandlers.go, lines 283 to 494).
use host_container.Prelude.{String, ◌&&◌, not, Option, none, some, [], ◌∷◌, if◌then◌else◌, str_eq}
use host_container.World.{FilePath, Outside}
use host_container.Text.{codes, text_eq}
use host_container.Paths.{clean, join, base, workspace, is_within}
use host_container.Containers.Exec.{exec_command, write_file_to_container}
use host_container.Http.{
  Method, is_get, is_post, message, failed, payload, Handler, respond, unless, answer, is_given,
}
use host_container.Folder.{parser_tree_folder}
use host_container.Handlers.{Payload, output, tree, written, attachment, with_project}

abbrev pub denied : String
denied = "access denied: path must be within /workspace"

pub record WriteRequest : Type 0 where
  pub path : FilePath
  pub content : String

-- A form: the field `path`, and the name and the content of the field `file`.
pub record UploadForm : Type 0 where
  pub folder : FilePath
  pub filename : FilePath
  pub content : Option String  -- `none` where it cannot be read

pub data Upload : Type 0 where
  too_large no_file : Upload
  form : UploadForm → Upload

unfoldable pub target_folder : FilePath → FilePath
target_folder p = if text_eq p [] then workspace else p

unfoldable pub destination : UploadForm → FilePath
unfolding target_folder
destination f = join (clean (target_folder f.folder) ∷ base f.filename ∷ [])

module _ (out : Outside) where
  unfoldable pub tree_folder : Method → String → Handler Payload
  tree_folder m project_id = with_project (is_get m) project_id (
      answer
        (exec_command out project_id
          (codes "sh" ∷ codes "-c" ∷ codes "find /workspace -maxdepth 10 2>/dev/null | sort" ∷ []))
        (λ e. respond 500 (failed e))
        (λ (o : String × String). respond 200 (payload (tree (parser_tree_folder (codes o.0))))))

  unfoldable pub read_file : Method → String → FilePath → Handler Payload
  read_file m project_id path = with_project (is_get m) project_id (
      unless (not (text_eq path [])) 400 "path is required" (
        unless (is_within path) 403 denied (
          answer (exec_command out project_id (codes "cat" ∷ clean path ∷ []))
            (λ e. respond 500 (failed e))
            (λ (o : String × String).
              if str_eq o.1 ""
              then respond 200 (payload (output o.0))
              else respond 404 (message o.1)))))

  unfoldable pub write_file : Method → String → Option WriteRequest → Handler Payload
  write_file m project_id body = with_project (is_post m) project_id (elim body [
    | none ↦ respond 400 (message "invalid request body")
    | some req ↦ unless (not (text_eq req.path [])) 400 "path is required" (
        unless (is_within req.path) 403 denied (
          answer (write_file_to_container out project_id (clean req.path) req.content)
            (λ e. respond 500 (failed e)) (λ _. respond 200 (message "file saved"))))
  ])

  abbrev store_upload : String → UploadForm → Handler Payload
  store_upload project_id f =
      unless (is_within (target_folder f.folder)) 403 denied (elim f.content [
        | none ↦ respond 500 (message "failed to read uploaded file")
        | some content ↦
            answer (write_file_to_container out project_id (destination f) content)
              (λ e. respond 500 (failed e)) (λ _. respond 200 (payload (written (destination f))))
      ])

  unfoldable pub upload_file : Method → String → Upload → Handler Payload
  upload_file m project_id body = with_project (is_post m) project_id (elim body [
    | too_large ↦ respond 413 (message "file too large (max 10 MB)")
    | no_file ↦ respond 400 (message "missing file field")
    | form f ↦ store_upload project_id f
  ])

  -- The MIME type, which the extension gives, is left out.
  unfoldable pub download_file : Method → String → FilePath → Handler Payload
  download_file m project_id path = unless (is_get m) 405 "method not allowed" (
      unless (is_given project_id && not (text_eq path [])) 400 "project_id and path are required" (
        unless (is_within path) 403 denied (
          answer (exec_command out project_id (codes "cat" ∷ clean path ∷ []))
            (λ e. respond 404 (message "file not found"))
            (λ (o : String × String).
              if str_eq o.1 ""
              then respond 200 (payload (attachment (base (clean path)) o.0))
              else respond 404 (message "file not found")))))
