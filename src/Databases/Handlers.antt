-- ===== src/Databases/Handlers.antt =====
-- The handlers of internal/api/databases.go, on top of the manager.
use agentic_paasd.Prelude.{ℕ, Bool, true, false, List, Text, if◌then◌else◌}
use agentic_paasd.Store.{Database}
use agentic_paasd.Runtime.{Env, World, Error, Result, ok, err, Exec}
use agentic_paasd.Server.Replies.{Body, Reply, sent, refused, Handler, with_manager, with_body}
use agentic_paasd.Databases.Provision.{CreateDatabase, Claim, create_database}
use agentic_paasd.Databases.Control.{
  get_database, list_databases, get_connection_string, delete_database,
}

-- The errors whose text isUserError knows: it begins with "invalid", or is one of the two it lists.
-- Every other text of Create's begins with another word.
unfoldable pub is_user_error : Error → Bool
is_user_error Error.type_invalid = true
is_user_error Error.name_invalid = true
is_user_error Error.db_quota = true
is_user_error _ = false

-- err.Error() == "database not found": the other errors' texts begin with what failed.
unfoldable pub is_missing : Error → Bool
is_missing Error.database_not_found = true
is_missing _ = false

abbrev pub create_reply : {A : Type 0} → Result A → Reply A
create_reply (ok a) = sent 201 a
create_reply (err e) = if is_user_error e then refused 400 else refused 500

abbrev pub list_reply : {A : Type 0} → Result A → Reply A
list_reply (ok a) = sent 200 a
list_reply (err e) = refused 500

-- Get, GetConnectionString and Delete tell a missing row from a failure.
abbrev pub row_reply : {A : Type 0} → ℕ → Result A → Reply A
row_reply n (ok a) = sent n a
row_reply n (err e) = if is_missing e then refused 404 else refused 500

abbrev pub answer_with : {A : Type 0} → (Result A → Reply A) → Exec A → Handler World A
answer_with reply m w = let (r, w') = m w in (reply r, w')

module _ (env : Env) (has_manager : Bool) where
  unfoldable pub handle_database_create : Text → Body CreateDatabase → Handler World (Text × Claim)
  handle_database_create tenant body =
      with_manager has_manager
        (with_body body (λ req. answer_with create_reply (create_database env tenant req)))

  unfoldable pub handle_database_list : Text → Handler World (List Database)
  handle_database_list tenant =
      with_manager has_manager (answer_with list_reply (list_databases env tenant))

  unfoldable pub handle_database_get : Text → Text → Handler World (Database × Text)
  handle_database_get tenant id =
      with_manager has_manager (answer_with (row_reply 200) (get_database env tenant id))

  unfoldable pub handle_database_connection_string : Text → Text → Handler World Text
  handle_database_connection_string tenant id =
      with_manager has_manager (answer_with (row_reply 200) (get_connection_string env tenant id))

  unfoldable pub handle_database_delete : Text → Text → Handler World (Unit {0})
  handle_database_delete tenant id =
      with_manager has_manager (answer_with (row_reply 204) (delete_database env tenant id))
