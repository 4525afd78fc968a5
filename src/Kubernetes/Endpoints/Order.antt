-- ===== src/Kubernetes/Endpoints/Order.antt =====
-- internal/kubernetes/endpoints.go: the order of the names, and the sorted list of the pods.
use mathlib.Core.List.{Memᴰ}
use mathlib.Core.List.Memᴰ
use terraform_provider_tunne.Base.{
  ◌≡◌, refl, ◌↔◌, ◌⊎◌, inl, inr, true, false, List, [], ◌∷◌, arith, Bool-cases,
}
use terraform_provider_tunne.GoText.{Text}
use terraform_provider_tunne.Kubernetes.Endpoints.{Pod, text_lt, insert_pod, sort_pods}

pub text_lt_irrefl : (s : Text) → text_lt s s ≡ false
unfolding text_lt
text_lt_irrefl [] = refl
text_lt_irrefl (c ∷ s) = ground (arith, text_lt_irrefl s)

pub text_lt_asymm : (s t : Text) → text_lt s t ≡ true → text_lt t s ≡ false
unfolding text_lt
text_lt_asymm [] [] h = refl
text_lt_asymm [] (d ∷ t) h = refl
text_lt_asymm (c ∷ s) [] h = cc
text_lt_asymm (c ∷ s) (d ∷ t) h = ground (arith, text_lt_asymm s t)

-- "not above" is transitive.
pub text_le_trans : (s t u : Text) → text_lt t s ≡ false → text_lt u t ≡ false → text_lt u s ≡ false
unfolding text_lt
text_le_trans [] [] u h k = k
text_le_trans [] (d ∷ t) [] h k = refl
text_le_trans [] (d ∷ t) (e ∷ u) h k = refl
text_le_trans (c ∷ s) [] u h k = ground arith
text_le_trans (c ∷ s) (d ∷ t) [] h k = ground arith
text_le_trans (c ∷ s) (d ∷ t) (e ∷ u) h k = ground (arith, text_le_trans s t u)

pub text_le_antisymm : (s t : Text) → text_lt s t ≡ false → text_lt t s ≡ false → s ≡ t
unfolding text_lt
text_le_antisymm [] [] h k = refl
text_le_antisymm [] (d ∷ t) h k = ground arith
text_le_antisymm (c ∷ s) [] h k = ground arith
text_le_antisymm (c ∷ s) (d ∷ t) h k = ground (arith, text_le_antisymm s t)

-- No pod of the list has a name below `p`'s.
abbrev pub Below : Pod → List Pod → Type 0
Below p ps = (q : Pod) → Memᴰ q ps → text_lt q.name p.name ≡ false

-- Sorted by name.
abbrev pub IsSorted : List Pod → Type 0
IsSorted [] = Unit
IsSorted (p ∷ ps) = Below p ps × IsSorted ps

-- The members of a list with a pod inserted.
mem-insert_pod :
    (p : Pod) (ps : List Pod) (q : Pod) → Memᴰ q (insert_pod p ps) → (q ≡ p) ⊎ Memᴰ q ps
unfolding insert_pod
mem-insert_pod p [] q = λ m. Memᴰ.cases_cons m
mem-insert_pod p (r ∷ rs) q = elim (Bool-cases (text_lt r.name p.name)) [
  | inl above ↦ rw above (λ m. elim (Memᴰ.cases_cons m) [
    | inl e ↦ inr (Memᴰ.head e)
    | inr n ↦ elim (mem-insert_pod p rs q n) [ inl e ↦ inl e | inr k ↦ inr (Memᴰ.tail k) ]
  ])
  | inr below ↦ rw below (λ m. Memᴰ.cases_cons m)
]

insert_pod-mem :
    (p : Pod) (ps : List Pod) (q : Pod) → (q ≡ p) ⊎ Memᴰ q ps → Memᴰ q (insert_pod p ps)
unfolding insert_pod
insert_pod-mem p [] q m = elim m [ inl e ↦ Memᴰ.head e | inr k ↦ Memᴰ.tail k ]
insert_pod-mem p (r ∷ rs) q m = elim (Bool-cases (text_lt r.name p.name)) [
  | inl above ↦ rw above (elim m [
    | inl e ↦ Memᴰ.tail (insert_pod-mem p rs q (inl e))
    | inr k ↦ elim (Memᴰ.cases_cons k) [
      | inl e ↦ Memᴰ.head e
      | inr n ↦ Memᴰ.tail (insert_pod-mem p rs q (inr n))
    ]
  ])
  | inr below ↦ rw below (elim m [ inl e ↦ Memᴰ.head e | inr k ↦ Memᴰ.tail k ])
]

-- A pod inserted into a sorted list.
insert_pod-IsSorted : (p : Pod) (ps : List Pod) → IsSorted ps → IsSorted (insert_pod p ps)
unfolding insert_pod
insert_pod-IsSorted p [] h = (λ q m. elim m [ ], tt)
insert_pod-IsSorted p (r ∷ rs) (low, h) = elim (Bool-cases (text_lt r.name p.name)) [
  | inl above ↦ rw above (
    λ q m. elim (mem-insert_pod p rs q m) [
      | inl e ↦ rw e (text_lt_asymm r.name p.name above)
      | inr k ↦ low q k
    ],
    insert_pod-IsSorted p rs h,
  )
  | inr below ↦ rw below (
    λ q m. elim (Memᴰ.cases_cons m) [
      | inl e ↦ rw e below
      | inr k ↦ text_le_trans p.name r.name q.name below (low q k)
    ],
    (low, h),
  )
]

pub sort_pods-IsSorted : (ps : List Pod) → IsSorted (sort_pods ps)
unfolding sort_pods
sort_pods-IsSorted [] = tt
sort_pods-IsSorted (p ∷ ps) = insert_pod-IsSorted p (sort_pods ps) (sort_pods-IsSorted ps)

pub mem-sort_pods : (ps : List Pod) (q : Pod) → Memᴰ q (sort_pods ps) ↔ Memᴰ q ps
unfolding sort_pods
mem-sort_pods [] q = (λ m. m, λ m. m)
mem-sort_pods (p ∷ ps) q = (
  λ m. elim (mem-insert_pod p (sort_pods ps) q m) [
    | inl e ↦ Memᴰ.head e
    | inr k ↦ Memᴰ.tail ((mem-sort_pods ps q).0 k)
  ],
  λ m.
      insert_pod-mem p (sort_pods ps) q
        (elim (Memᴰ.cases_cons m) [ inl e ↦ inl e | inr k ↦ inr ((mem-sort_pods ps q).1 k) ]),
)
