-- ===== src/Members/Settings.antt =====
-- src/api/src/modules/users/users.service.ts: how a change of a user's settings is merged into them.
pub mod Laws
use iron_loot.Common.{
  ℕ, zero, suc, ◌+◌, ◌-◌, ◌*◌, ◌/◌, ◌%◌, ◌≤◌, ◌<◌, ◌≡◌, refl, sym, ap, ◌∙◌, ◌≢◌, ◌⊎◌, inl, inr,
  Bool, true, false, ◌&&◌, ◌||◌, not, Option, none, some, List, [], ◌∷◌, ◌++◌, map, arith, ltb, leb,
  ◌==◌, if◌then◌else◌, ==_iff, Bool-cases, Option-cases, ℤ, pos, negsuc, pos_part, neg_part, sub_ℕ,
  ◌+ℤ◌, ◌-ℤ◌, ◌≤ℤ◌, ◌<ℤ◌, ltb_ℤ, leb_ℤ, min_ℤ, max_ℤ, +ℤ_parts, -ℤ_parts, eq_of_parts, int_laws,
  All, length, select, find_first,
}
use iron_loot.Exec.{
  Error, Result, ok, err, ⊤, Exec, pure, raise, gets, or_raise, settle, transaction, recover, catch,
  raise_if, modify, continue, ◌>>=◌, ◌>>◌, attempt, not_found, bad_request, forbidden, validation,
  insufficient_balance, auction_not_found, auction_not_active, bid_too_low, bid_on_own_auction,
  order_not_found, user_not_found, unique_violation, record_missing, outcome_cases,
  connection_failed, invalid_credentials, email_already_exists, user_not_verified, user_suspended,
  user_banned, token_expired, token_invalid, conflict,
}
use iron_loot.Table.{
  Table, lookup, insert, lookup-insert, lookup-insert_self, lookup-insert_ne, find_first-insert,
  find_first_holds,
}

-- Values of JSON, and `undefined`. Names are numbers; the names of an array are its indices.
mutual
  pub data Value : Type 0 where
    undefined null : Value
    flag : Bool → Value
    number : ℕ → Value
    text : List ℕ → Value
    array object : Fields → Value

  pub data Fields : Type 0 where
    end : Fields
    field : ℕ → Value → Fields → Fields

-- `output[key]`
abbrev pub get : ℕ → Fields → Value
get key end = undefined
get key (field k v fs) = if key == k then v else get key fs

abbrev pub put : ℕ → Value → Fields → Fields
put key v end = field key v end
put key v (field k w fs) = if key == k then field key v fs else field k w (put key v fs)

-- `deepMerge` of two objects makes an object, also of an array; an array over an array replaces it.
unfoldable mutual
  pub deep_merge : Value → Value → Value
  deep_merge target undefined = undefined
  deep_merge target null = null
  deep_merge target (flag b) = flag b
  deep_merge target (number n) = number n
  deep_merge target (text t) = text t
  deep_merge (array ts) (array fs) = object (merge_fields ts fs)
  deep_merge (object ts) (array fs) = object (merge_fields ts fs)
  deep_merge (array ts) (object fs) = object (merge_fields ts fs)
  deep_merge (object ts) (object fs) = object (merge_fields ts fs)
  deep_merge undefined source = source
  deep_merge null source = source
  deep_merge (flag b) source = source
  deep_merge (number n) source = source
  deep_merge (text t) source = source

  pub merge_fields : Fields → Fields → Fields
  merge_fields output end = output
  merge_fields output (field key v fs) = merge_fields (merge_value output key (get key output) v) fs

  pub merge_value : Fields → ℕ → Value → Value → Fields
  merge_value output key target undefined = output
  merge_value output key (array ts) (array fs) = put key (array fs) output
  merge_value output key target null = put key null output
  merge_value output key target (flag b) = put key (flag b) output
  merge_value output key target (number n) = put key (number n) output
  merge_value output key target (text t) = put key (text t) output
  merge_value output key (object ts) (array fs) = put key (object (merge_fields ts fs)) output
  merge_value output key (array ts) (object fs) = put key (object (merge_fields ts fs)) output
  merge_value output key (object ts) (object fs) = put key (object (merge_fields ts fs)) output
  merge_value output key target source = put key source output

-- `user.settings || {}`
abbrev pub or_object : Value → Value
or_object undefined = object end
or_object null = object end
or_object (flag false) = object end
or_object (number n) = if n == 0 then object end else number n
or_object (text []) = object end
or_object v = v

-- The settings of each user. What is stored holds no `undefined`.
unfoldable pub update_settings : ℕ → Value → Exec (Table Value) Value
update_settings user_id dto = do
  current ← or_raise (← gets (λ t. lookup user_id t)) user_not_found
  let merged = deep_merge (or_object current) dto
  modify (λ t. insert user_id merged t)
  pure merged
