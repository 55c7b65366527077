-- ===== src/Traffic/Crash.antt =====
-- Requests whose fields are not strings.
use wtsl_app.Base.{
  ◌≡◌, refl, ap, Bool, true, false, ◌||◌, ◌&&◌, Option, none, some, List, [], ◌∷◌, String, inl, inr,
  Bool-cases, if◌then◌else◌, Text, codes,
}
use wtsl_app.Traffic.{
  Json, QosState, tc_command, tc_handle_request, run_command, is_delete, append_field, append_if,
  append_prio, filter_prio, append_tc_arg, append_tc_args, tc_args, tc_changed, tc_deleted,
  arg_value, is,
}

module _ {J : Type 0} (json : Json J) where
  append_field-none : (label : String) (j : Option J) → append_field json none label j ≡ none
  append_field-none label none = refl
  append_field-none label (some j) = refl

  append_if-none : (b : Bool) (label : String) (j : Option J) → append_if json b none label j ≡ none
  append_if-none true label j = append_field-none label j
  append_if-none false label j = refl

  append_prio-none : (j : Option J) → append_prio json none j ≡ none
  append_prio-none none = refl
  append_prio-none (some j) = refl

  filter_prio-none : (b : Bool) (params : J) → filter_prio json b none params ≡ none
  filter_prio-none true params = append_prio-none (json.field (codes "prio") params)
  filter_prio-none false params = refl

  append_tc_arg-none :
      (obj_type key : Text) (v : Option Text) → append_tc_arg json obj_type none key v ≡ none
  append_tc_arg-none obj_type key none = refl
  append_tc_arg-none obj_type key (some val) =
      elim (Bool-cases (is obj_type "filter" && is key "match")) [
        | inl h ↦ rw h refl
        | inr h ↦ rw h refl
      ]

  append_tc_args-none :
      (obj_type : Text) (items : List (Text × J)) → append_tc_args json obj_type none items ≡ none
  append_tc_args-none obj_type [] = refl
  append_tc_args-none obj_type ((key, j) ∷ items) =
      rw (append_tc_arg-none obj_type key (arg_value json json.valuedouble_text j))
        (append_tc_args-none obj_type items)

  tc_args-none : (obj_type : Text) (args : Option J) → tc_args json obj_type none args ≡ none
  tc_args-none obj_type none = refl
  tc_args-none obj_type (some args) = elim (Bool-cases (json.is_object args)) [
    | inl h ↦ rw h (append_tc_args-none obj_type (json.children args))
    | inr h ↦ rw h refl
  ]

  -- A field that is there and is no string.
  abbrev NoString : String → J → Type 0
  NoString name params =
      (j : J) × (json.field (codes name) params ≡ some j) × (json.valuestring j ≡ none)

  tc_deleted-parent :
      (cmd : Text) (params : J)
      → NoString "parent" params
      → tc_deleted json (some cmd) params ≡ none
  tc_deleted-parent cmd params (j, there, null) =
      rw (there, null) (append_field-none " handle " (json.field (codes "handle") params))

  tc_changed-parent :
      (action obj_type cmd : Text) (params : J)
      → NoString "parent" params
      → tc_changed json action obj_type (some cmd) params ≡ none
  tc_changed-parent action obj_type cmd params (j, there, null) =
      rw
        (
          there, null, append_if-none, append_if-none, append_if-none, filter_prio-none,
          append_if-none, tc_args-none, append_if-none,
        )
        refl

  either_none : (b : Bool) (x y : Option Text) → x ≡ none → y ≡ none → (if b then x else y) ≡ none
  either_none true x y h k = h
  either_none false x y h k = k

  -- A request with a field "parent" that is no string crashes, whatever its action and type: strcat
  -- is called with the NULL of that field.
  pub parent-crash :
      (action obj_type : Text) (params : J) (works : Bool) (s : QosState)
      → NoString "parent" params
      → tc_handle_request json action obj_type params works s ≡ none
  unfolding tc_handle_request tc_command run_command
  parent-crash action obj_type params works s h =
      ap (λ o. run_command (is action "add" || is action "replace") works o s)
        (either_none (is_delete action) _ _ (tc_deleted-parent _ params h)
          (tc_changed-parent action obj_type _ params h))
