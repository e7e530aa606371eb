-- ===== src/Numa/Discover/Vectors.antt =====
-- The vectors that `discover_nodes` of src/numa.cpp pushes to and cuts down, by their members.
use native.Mathlib.Decide.{ℕ_discrete}
use hwmalloc.Base.{
  ℕ, ◌≡◌, ◌⊎◌, ◌↔◌, inl, inr, refl, ◌∙◌, Bool, true, false, List, [], ◌∷◌, ◌==◌, if◌then◌else◌,
  eq→==, ne→==,
}
use hwmalloc.Numa.Nodes.Find.{Has}
use hwmalloc.Numa.Discover.{unique, unique_after}

-- A member that is pushed under a condition.
pub if-Has :
    (n x : ℕ) (b : Bool) (xs : List ℕ)
    → Has n (if b then x ∷ xs else xs)
    → ((b ≡ true) × (x ≡ n)) ⊎ Has n xs
if-Has n x true xs (inl e) = inl (refl, e)
if-Has n x true xs (inr h) = inr h
if-Has n x false xs h = inr h

pub Has-if :
    (n x : ℕ) (b : Bool) (xs : List ℕ)
    → ((b ≡ true) × (x ≡ n)) ⊎ Has n xs
    → Has n (if b then x ∷ xs else xs)
Has-if n x true xs (inl (t, e)) = inl e
Has-if n x true xs (inr h) = inr h
Has-if n x false xs (inl (t, e)) = cc
Has-if n x false xs (inr h) = h

unless-Has :
    (n x : ℕ) (b : Bool) (xs : List ℕ) → Has n (if b then xs else x ∷ xs) → (x ≡ n) ⊎ Has n xs
unless-Has n x true xs h = inr h
unless-Has n x false xs h = h

unique_after-Has : (n x : ℕ) (xs : List ℕ) → Has n (unique_after x xs) → Has n xs
unfolding unique_after
unique_after-Has n x [] h = h
unique_after-Has n x (y ∷ ys) h = elim (unless-Has n y (x == y) (unique_after y ys) h) [
  | inl here ↦ inl here
  | inr later ↦ inr (unique_after-Has n y ys later)
]

Has-unique_after :
    (n x : ℕ) (xs : List ℕ) → (x ≡ n) ⊎ Has n xs → (x ≡ n) ⊎ Has n (unique_after x xs)
unfolding unique_after
Has-unique_after n x [] h = h
Has-unique_after n x (y ∷ ys) (inl here) = inl here
Has-unique_after n x (y ∷ ys) (inr later) =
    let m = Has-unique_after n y ys later in
    elim (ℕ_discrete x y) [
      | yes same ↦ elim m [
        | inl here ↦ inl (same ∙ here)
        | inr rest ↦ inr (rw (eq→== x y same) rest)
      ]
      | no other ↦ inr (rw (ne→== x y other) m)
    ]

pub unique-Has : (n : ℕ) (xs : List ℕ) → Has n (unique xs) ↔ Has n xs
unfolding unique
unique-Has n [] = ((λ h. h), (λ h. h))
unique-Has n (x ∷ xs) = (
  (λ h. elim h [ inl here ↦ inl here | inr later ↦ inr (unique_after-Has n x xs later) ]),
  Has-unique_after n x xs,
)

-- A node is pushed to one of the vectors, or to none.
abbrev pub pick : Bool → Bool → ℕ → List ℕ × List ℕ → List ℕ × List ℕ
pick a c i (hs, ds) = if a then if c then (i ∷ hs, ds) else (hs, i ∷ ds) else (hs, ds)

pub pick-Has :
    (n i : ℕ) (a c : Bool) (p : List ℕ × List ℕ)
    → (Has n (pick a c i p).0 → ((a ≡ true) × (c ≡ true) × (i ≡ n)) ⊎ Has n p.0)
      × (Has n (pick a c i p).1 → ((a ≡ true) × (c ≡ false) × (i ≡ n)) ⊎ Has n p.1)
pick-Has n i true true (hs, ds) =
    ((λ h. elim h [ inl e ↦ inl (refl, refl, e) | inr k ↦ inr k ]), (λ h. inr h))
pick-Has n i true false (hs, ds) =
    ((λ h. inr h), (λ h. elim h [ inl e ↦ inl (refl, refl, e) | inr k ↦ inr k ]))
pick-Has n i false c (hs, ds) = ((λ h. inr h), (λ h. inr h))

pub Has-pick :
    (n i : ℕ) (a c : Bool) (p : List ℕ × List ℕ)
    → (((a ≡ true) × (c ≡ true) × (i ≡ n)) ⊎ Has n p.0 → Has n (pick a c i p).0)
      × (((a ≡ true) × (c ≡ false) × (i ≡ n)) ⊎ Has n p.1 → Has n (pick a c i p).1)
Has-pick n i true true (hs, ds) = (
  (λ h. elim h [ inl (t, u, e) ↦ inl e | inr k ↦ inr k ]),
  (λ h. elim h [ inl (t, u, e) ↦ cc | inr k ↦ k ]),
)
Has-pick n i true false (hs, ds) = (
  (λ h. elim h [ inl (t, u, e) ↦ cc | inr k ↦ k ]),
  (λ h. elim h [ inl (t, u, e) ↦ inl e | inr k ↦ inr k ]),
)
Has-pick n i false c (hs, ds) = (
  (λ h. elim h [ inl (t, u, e) ↦ cc | inr k ↦ k ]),
  (λ h. elim h [ inl (t, u, e) ↦ cc | inr k ↦ k ]),
)
