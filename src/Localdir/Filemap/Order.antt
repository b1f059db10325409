-- ===== src/Localdir/Filemap/Order.antt =====
-- The order of paths, and sorting by it (filemap_chmod.go).
use contain.Base.{
  ℕ, ◌≡◌, refl, ap, ◌∙◌, sym, Bool, true, false, List, [], ◌∷◌, arith, codes, Bool-cases, inl, inr,
}
use mathlib.Core.Logic.{∥∥₁_elim}
use mathlib.Core.List.{Mem, Perm, Permᴰ, mem-cons_self, mem-cons_of_mem}
use mathlib.Core.List.Permᴰ
use mathlib.Core.Path.{ap₂}
use native.Mathlib.Nat.{ℕ_set}
use text.Mathlib.TextEquality.{IsScalar-prop}
use contain.Localdir.Filemap.{FileInfo, less, insert, sort_by_path}

less_trans : (a b c : List ℕ) → less a b ≡ true → less b c ≡ true → less a c ≡ true
unfolding less
less_trans a b [] h k = ground arith
less_trans a [] (z ∷ c) h k = ground arith
less_trans [] (y ∷ b) (z ∷ c) h k = refl
less_trans (x ∷ a) (y ∷ b) (z ∷ c) h k = ground (arith, less_trans a b c)

less_asym : (a b : List ℕ) → less a b ≡ true → less b a ≡ false
unfolding less
less_asym a [] h = ground arith
less_asym [] (y ∷ b) h = refl
less_asym (x ∷ a) (y ∷ b) h = ground (arith, less_asym a b)

less_eq : (a b : List ℕ) → less a b ≡ false → less b a ≡ false → a ≡ b
unfolding less
less_eq [] [] h k = refl
less_eq [] (y ∷ b) h k = ground arith
less_eq (x ∷ a) [] h k = ground arith
less_eq (x ∷ a) (y ∷ b) h k = ap₂ ◌∷◌ (ground arith) (less_eq a b (ground arith) (ground arith))

abbrev before : FileInfo → FileInfo → Bool
before f g = less (codes f.path) (codes g.path)

-- A path that occurs twice occurs with the same file.
abbrev pub AreDetermined : List FileInfo → Type 0
AreDetermined l = (f g : FileInfo) → Mem f l → Mem g l → codes f.path ≡ codes g.path → f ≡ g

insert_swap_lt :
    (f g : FileInfo) (l : List FileInfo)
    → before f g ≡ true
    → insert f (insert g l) ≡ insert g (insert f l)
unfolding insert
insert_swap_lt f g [] h = ground (arith, less_asym (codes f.path) (codes g.path) h)
insert_swap_lt f g (k ∷ l) h = ground (
  arith,
  h,
  less_asym (codes f.path) (codes g.path) h,
  less_trans (codes k.path) (codes f.path) (codes g.path),
  insert_swap_lt f g l h,
)

insert_swap :
    (f g : FileInfo) (l : List FileInfo)
    → (codes f.path ≡ codes g.path → f ≡ g)
    → insert f (insert g l) ≡ insert g (insert f l)
insert_swap f g l same = elim (Bool-cases (before f g)) [
  | inl lt ↦ insert_swap_lt f g l lt
  | inr ge ↦ elim (Bool-cases (before g f)) [
    | inl gt ↦ sym (insert_swap_lt g f l gt)
    | inr le ↦
        ap (λ k. insert k (insert g l)) (same (less_eq (codes f.path) (codes g.path) ge le))
        ∙ ap (λ k. insert g (insert k l)) (sym (same (less_eq (codes f.path) (codes g.path) ge le)))
  ]
]

sort_by_path_reordered :
    {l m : List FileInfo} → Permᴰ l m → AreDetermined l → sort_by_path l ≡ sort_by_path m
unfolding sort_by_path
sort_by_path_reordered Permᴰ.nil d = refl
sort_by_path_reordered (Permᴰ.cons {a} {b} {l₁} {l₂} e p) d =
    ap₂ insert e
      (sort_by_path_reordered p (λ f g mf mg. d f g (mem-cons_of_mem a mf) (mem-cons_of_mem a mg)))
sort_by_path_reordered (Permᴰ.swap {a} {b} {a'} {b'} {l} e f) d =
    insert_swap a b (sort_by_path l) (d a b mem-cons_self (mem-cons_of_mem a mem-cons_self))
    ∙ ap₂ (λ x y. insert x (insert y (sort_by_path l))) f e
sort_by_path_reordered (Permᴰ.trans p q) d =
    sort_by_path_reordered p d
    ∙ sort_by_path_reordered q
        (λ f g mf mg. d f g (Permᴰ.mem (Permᴰ.symm p) mf) (Permᴰ.mem (Permᴰ.symm p) mg))

is_set : IsSet (List FileInfo)
is_set = hlevel (ℕ_set, IsScalar-prop)

pub sort_by_path_perm :
    {l m : List FileInfo} → Perm l m → AreDetermined l → sort_by_path l ≡ sort_by_path m
sort_by_path_perm {l} {m} p d =
    ∥∥₁_elim p (is_set (sort_by_path l) (sort_by_path m)) (λ q. sort_by_path_reordered q d)
