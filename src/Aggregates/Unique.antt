-- ===== src/Aggregates/Unique.antt =====
-- The primary key of flags: writes under fresh identifiers keep it.
use protect_platform.Aggregates.{has_id}
use protect_platform.Flags.Admin.{flag_key}
use protect_platform.Flags.Admin.Rescored.{HasUniqueIds}
use protect_platform.Store.{Flag}
use protect_platform.Prelude.{
  eq_iff, inr, refl, ap, inl, Bool-cases, [], arith, ◌==◌, ◌||◌, ◌∷◌, create, if◌then◌else◌, map,
  false, any, ◌≡◌, Bool, List, remove, update, String,
}

any-append_one :
    (p : Flag → Bool) (f : Flag) (fs : List Flag) → any p (create f fs) ≡ (any p fs || p f)
any-append_one p f [] = ground arith
any-append_one p f (g ∷ fs) = ground (arith, any-append_one p f fs)

pub create-HasUniqueIds :
    (f : Flag) (fs : List Flag)
    → any (has_id f.id) fs ≡ false
    → HasUniqueIds fs
    → HasUniqueIds (create f fs)
create-HasUniqueIds f [] new u = (refl, tt)
create-HasUniqueIds f (g ∷ fs) new (once, u) = (
  ground (arith, any-append_one (has_id g.id) f fs, once, new, eq_iff g.id f.id, eq_iff f.id g.id),
  create-HasUniqueIds f fs (ground (arith, new)) u,
)

any-remove :
    (p : Flag → Bool) (id : String) (fs : List Flag)
    → any p fs ≡ false
    → any p (remove flag_key id fs) ≡ false
unfolding remove
any-remove p id [] h = refl
any-remove p id (g ∷ fs) h = ground (arith, any-remove p id fs)

pub remove-HasUniqueIds :
    (id : String) (fs : List Flag) → HasUniqueIds fs → HasUniqueIds (remove flag_key id fs)
unfolding remove
remove-HasUniqueIds id [] u = tt
remove-HasUniqueIds id (g ∷ fs) (once, u) = elim (Bool-cases (g.id == id)) [
  | inl gone ↦ rw gone (remove-HasUniqueIds id fs u)
  | inr kept ↦ rw kept (any-remove (has_id g.id) id fs once, remove-HasUniqueIds id fs u)
]

any-map :
    (id : String) (f : Flag → Flag) (fs : List Flag)
    → ((g : Flag) → (f g).id ≡ g.id)
    → any (has_id id) (map f fs) ≡ any (has_id id) fs
any-map id f [] same = refl
any-map id f (g ∷ fs) same = ground (arith, same g, any-map id f fs same)

-- A change of rows that leaves the identifiers alone.
pub map-HasUniqueIds :
    (f : Flag → Flag) (fs : List Flag)
    → ((g : Flag) → (f g).id ≡ g.id)
    → HasUniqueIds fs
    → HasUniqueIds (map f fs)
map-HasUniqueIds f [] same u = tt
map-HasUniqueIds f (g ∷ fs) same (once, u) =
    (rw (same g, any-map g.id f fs same) once, map-HasUniqueIds f fs same u)

update-map :
    (id : String) (f : Flag → Flag) (fs : List Flag)
    → update flag_key id f fs ≡ map (λ g. if g.id == id then f g else g) fs
unfolding update
update-map id f [] = refl
update-map id f (g ∷ fs) = ap (λ rest. (if g.id == id then f g else g) ∷ rest) (update-map id f fs)

pub update-HasUniqueIds :
    (id : String) (f : Flag → Flag) (fs : List Flag)
    → ((g : Flag) → (f g).id ≡ g.id)
    → HasUniqueIds fs
    → HasUniqueIds (update flag_key id f fs)
update-HasUniqueIds id f fs same u =
    rw (update-map id f fs)
      (map-HasUniqueIds (λ g. if g.id == id then f g else g) fs (λ g. ground (arith, same g)) u)
