-- ===== src/Web/Tree/Chains.antt =====
-- Parents and children (web/src/components/features/events/TreeView.tsx).
use raceway.Prelude.{
  ◌≡◌, refl, sym, ap, subst, ◌∙◌, ◌⊎◌, inl, inr, List, [], ◌∷◌, ◌++◌, some, arith, In,
  In-append_left, In-append_right, In-append_cases, Option-cases, Bool-cases, if◌then◌else◌,
}
use raceway.Text.{Text, ◌==◌, eq_iff}
use raceway.Maps.{get, push, or_nil, get-push}
use raceway.Web.Types.{Event}
use raceway.Web.Graph.{parent_of}
use raceway.Web.Tree.{Children, add_children, children_map, children_of}

-- The event is a child of the id.
abbrev pub IsChild : List Event → Text → Event → Type 0
IsChild es id x = In x es × (parent_of x ≡ some id)

children_of-push :
    (k id : Text) (e : Event) (m : Children)
    → children_of (push k e m) id
      ≡ (if k == id then children_of m id ++ e ∷ [] else children_of m id)
unfolding children_of
children_of-push k id e m = elim (Bool-cases (k == id)) [
  | inl same ↦
      ap or_nil (get-push id k e m)
      ∙ simp same (ap (λ i. children_of m i ++ e ∷ []) ((eq_iff k id).0 same))
  | inr other ↦ ap or_nil (get-push id k e m) ∙ simp other refl
]

In-push :
    (x : Event) (k id : Text) (e : Event) (m : Children)
    → (In x (children_of (push k e m) id) → In x (children_of m id) ⊎ ((e ≡ x) × (k ≡ id)))
      × (In x (children_of m id) ⊎ ((e ≡ x) × (k ≡ id)) → In x (children_of (push k e m) id))
In-push x k id e m = elim (Bool-cases (k == id)) [
  | inl same ↦
      let eq : children_of (push k e m) id ≡ children_of m id ++ e ∷ [] =
        children_of-push k id e m ∙ simp same refl in
      (
        (λ i. elim (In-append_cases x (children_of m id) (e ∷ []) (subst (In x) eq i)) [
          | inl old ↦ inl old
          | inr new ↦ inr (elim new [ inl at ↦ at | inr bad ↦ absurd bad ], (eq_iff k id).0 same)
        ]),
        (λ h. subst (In x) (sym eq) (elim h [
          | inl old ↦ In-append_left x (children_of m id) (e ∷ []) old
          | inr new ↦ In-append_right x (children_of m id) (e ∷ []) (inl new.0)
        ])),
      )
  | inr other ↦
      let eq : children_of (push k e m) id ≡ children_of m id =
        children_of-push k id e m ∙ simp other refl in
      (
        (λ i. inl (subst (In x) eq i)),
        (λ h. subst (In x) (sym eq) (elim h [
          | inl old ↦ old
          | inr new ↦ absurd (ground (arith, other, (eq_iff k id).1 new.1))
        ])),
      )
]

In-add_children :
    (x : Event) (id : Text) (es : List Event) (m : Children)
    → (In x (children_of (add_children es m) id) → In x (children_of m id) ⊎ IsChild es id x)
      × (In x (children_of m id) ⊎ IsChild es id x → In x (children_of (add_children es m) id))
unfolding add_children
In-add_children x id [] m = ((λ i. inl i), (λ h. elim h [ inl i ↦ i | inr c ↦ absurd c.0 ]))
In-add_children x id (e ∷ es) m = elim (Option-cases (parent_of e)) [
  | inl top ↦
      let ih = In-add_children x id es m in
      rw (add_children, top)
        (
          (λ i. elim (ih.0 i) [ inl old ↦ inl old | inr c ↦ inr (inr c.0, c.1) ]),
          (λ h. ih.1 (elim h [
            | inl old ↦ inl old
            | inr c ↦ elim c.0 [
              | inl same ↦ absurd (ground (arith, top, c.1, ap parent_of same))
              | inr i ↦ inr (i, c.1)
            ]
          ])),
        )
  | inr (k, up) ↦
      let ih = In-add_children x id es (push k e m) in
      rw (add_children, up)
        (
          (λ i. elim (ih.0 i) [
            | inl old ↦ elim ((In-push x k id e m).0 old) [
              | inl older ↦ inl older
              | inr new ↦ inr (inl new.0, sym (ap parent_of new.0) ∙ (up ∙ ap (λ t. some t) new.1))
            ]
            | inr c ↦ inr (inr c.0, c.1)
          ]),
          (λ h. ih.1 (elim h [
            | inl old ↦ inl ((In-push x k id e m).1 (inl old))
            | inr c ↦ elim c.0 [
              | inl same ↦
                  inl (
                    (In-push x k id e m).1 (inr (same, ground (arith, up, c.1, ap parent_of same))))
              | inr i ↦ inr (i, c.1)
            ]
          ])),
        )
]

-- The children of an id are the events whose parent it is.
pub In-children_map :
    (x : Event) (id : Text) (es : List Event)
    → (In x (children_of (children_map es) id) → IsChild es id x)
      × (IsChild es id x → In x (children_of (children_map es) id))
unfolding get add_children children_map
In-children_map x id es = (
  (λ i. elim ((In-add_children x id es []).0 i) [ inl bad ↦ absurd bad | inr c ↦ c ]),
  (λ c. (In-add_children x id es []).1 (inr c)),
)
