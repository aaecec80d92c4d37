-- ===== src/Router/Routes.antt =====
-- A message goes to the handler of its module and action, the first that was registered.
use puzzle_bubble.Prelude.{
  ◌≡◌, ◌⊎◌, refl, inl, inr, arith, ◌||◌, true, false, Bool-cases, if◌then◌else◌, Option, none, some,
  List, String, str_eq, eq_iff, lookup, insert, has, lookup-insert, lookup_of_has_not,
}
use Prim.Native.String.{◌++◌}
use puzzle_bubble.Router.{SessionView, Message, Handler, registered, route_key, register, dispatch}

blank_one : (a b : String) → (str_eq a "" || str_eq b "") ≡ true → (a ≡ "") ⊎ (b ≡ "")
blank_one a b h = elim (Bool-cases (str_eq a "")) [
  | inl e ↦ inl ((eq_iff a "").0 e)
  | inr e ↦ inr ((eq_iff b "").0 (ground (arith, e, h)))
]

given_both :
    (a b : String)
    → (str_eq a "" || str_eq b "") ≡ false
    → (str_eq a "" ≡ false) × (str_eq b "" ≡ false)
given_both a b h = ground (arith, h)

-- The text under which a route is filed.
abbrev pub route_text : String → String → String
route_text module_name action = module_name ++ ("/" ++ action)

module _ {Body : Type 0} where
  dispatch-insert :
      (r : List (String × Handler Body)) (key : String) (f : Handler Body) (s : SessionView)
      (msg : Message Body)
      → dispatch (insert key f r) s msg
        ≡ (if str_eq key (route_key msg.module_name msg.action) then f s msg else dispatch r s msg)
  unfolding dispatch
  dispatch-insert r key f s msg =
      let wanted = route_key msg.module_name msg.action in
      elim (Bool-cases (str_eq key wanted)) [
        | inl same ↦ rw (dispatch, lookup-insert key wanted f r, same) refl
        | inr other ↦ rw (dispatch, lookup-insert key wanted f r, other) refl
      ]

  -- A registration is taken exactly if there is a handler, module and action are not empty and no
  -- handler is filed under the text of module, slash and action. Then a message whose module and
  -- action give that same text goes to the handler, and every other message goes where it went
  -- before; a registration that is refused changes nothing.
  pub register-dispatch :
      (r : List (String × Handler Body)) (module_name action : String) (h : Option (Handler Body))
      → let out = register r module_name action h in
        ((f : Handler Body) × (h ≡ some f)
          × (str_eq module_name "" ≡ false)
          × (str_eq action "" ≡ false)
          × (lookup (route_text module_name action) r ≡ none)
          × (out.1 ≡ registered)
          × ((s : SessionView) (msg : Message Body)
              → dispatch out.0 s msg ≡ (
                  if str_eq (route_text module_name action) (route_text msg.module_name msg.action)
                  then f s msg
                  else dispatch r s msg)))
        ⊎ (((h ≡ none)
              ⊎ (module_name ≡ "")
              ⊎ (action ≡ "")
              ⊎ (has (route_text module_name action) r ≡ true))
            × ¬ (out.1 ≡ registered)
            × (out.0 ≡ r))
  unfolding register route_key
  register-dispatch r module_name action none = inr (inl refl, λ e. absurd (cc), refl)
  register-dispatch r module_name action (some f) =
      elim (Bool-cases (str_eq module_name "" || str_eq action "")) [
        | inl blank ↦
            rw (register, blank)
              (inr (why_blank (blank_one module_name action blank), λ e. absurd (cc), refl))
        | inr given ↦
            let key = route_key module_name action in
            let (named, acts) = given_both module_name action given in
            elim (Bool-cases (has key r)) [
              | inl taken ↦
                  rw (register, given, taken) (inr (inr (inr (inr refl)), λ e. absurd (cc), refl))
              | inr is_free ↦
                  rw (register, given, is_free)
                    (inl (
                      f,
                      refl,
                      named,
                      acts,
                      lookup_of_has_not key r is_free,
                      refl,
                      dispatch-insert r key f,
                    ))
            ]
      ]
    where
      why_blank :
          (module_name ≡ "") ⊎ (action ≡ "")
          → (some f ≡ none)
            ⊎ (module_name ≡ "")
            ⊎ (action ≡ "")
            ⊎ (has (route_text module_name action) r ≡ true)
      why_blank (inl e) = inr (inl e)
      why_blank (inr e) = inr (inr (inl e))
