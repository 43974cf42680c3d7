-- ===== src/Networks/Handlers.antt =====
-- service/networkHandler.go. A missing user id is the empty text, which no cast reads.
use host_container.Prelude.{String, ◌&&◌, Option, none, some, List}
use host_container.World.{Outside}
use host_container.Http.{
  Method, get, post, is_post, is_delete, Handler, message, failed, no_content, payload, respond,
  unless, answer, is_given,
}
use host_container.Networks.{
  NetworkInfo, create_network, connect_container, disconnect_container, delete_network,
}
use host_container.Networks.Listing.{list_networks}

pub data Payload : Type 0 where
  created : NetworkInfo → Payload
  listed : List NetworkInfo → Payload
  nothing : Payload

-- `userID, _ := r.Context().Value(utils.UserIDKey).(string)`
abbrev pub user_or_empty : Option String → String
user_or_empty none = ""
user_or_empty (some u) = u

pub record ConnectRequest : Type 0 where
  pub project_id : String
  pub alias : String

module _ (out : Outside) where
  pub create : Option String → Option String → Handler Payload
  create user body w = elim body [
    | none ↦ respond 400 (message "name is required") w
    | some name ↦
        unless (is_given name) 400 "name is required"
          (answer (create_network out (user_or_empty user) name) (λ e. respond 400 (failed e))
            (λ net. respond 201 (payload (created net))))
          w
  ]

  pub list : Option String → Handler Payload
  list user =
      answer (list_networks out (user_or_empty user)) (λ e. respond 500 (message "internal error"))
        (λ nets. respond 200 (payload (listed nets)))

  pub dispatch : Method → Option String → Option String → Handler Payload
  dispatch get user body = list user
  dispatch post user body = create user body
  dispatch _ user body = respond 405 (message "method not allowed")

  pub delete : Method → Option String → String → Handler Payload
  delete m user net_id = unless (is_delete m) 405 "method not allowed" (
      answer (delete_network out (user_or_empty user) net_id) (λ e. respond 400 (failed e))
        (λ _. respond 204 no_content))

  unfoldable pub connect : Method → Option String → String → Option ConnectRequest → Handler Payload
  connect m user net_id body = unless (is_post m) 405 "method not allowed" (λ w. elim body [
    | none ↦ respond 400 (message "project_id and alias are required") w
    | some req ↦
        unless (is_given req.project_id && is_given req.alias) 400
          "project_id and alias are required"
          (answer (connect_container out (user_or_empty user) net_id req.project_id req.alias)
            (λ e. respond 400 (failed e)) (λ _. respond 200 (payload nothing)))
          w
  ])

  pub disconnect : Method → Option String → String → String → Handler Payload
  disconnect m user net_id project_id = unless (is_delete m) 405 "method not allowed" (
      answer (disconnect_container out (user_or_empty user) net_id project_id)
        (λ e. respond 400 (failed e)) (λ _. respond 204 no_content))
