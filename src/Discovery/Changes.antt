-- ===== src/Discovery/Changes.antt =====
-- Which changes a discovery reports, pkg/discovery/manager.go.
use mathlib.Core.List.{Perm, Permᴰ}
use mathlib.Core.Logic.{∥∥₁_elim}
use mathlib.Core.Bool.{Bool-set}
use kubemirror.Prelude.{
  String, Bool, not, ◌&&◌, ◌||◌, ◌==◌, List, [], ◌∷◌, map, ◌≡◌, refl, contains, arith, eq_iff,
  Bool-cases, inl, inr, ◌∙◌, is_some, ap,
}
use kubemirror.Prelude.Dict.{Dict, lookup, insert, lookup-insert}
use kubemirror.ResourceType.{ResourceType, to_text}
use kubemirror.Discovery.{keyed, missing_in, detect_changes}

keyed-lookup :
    (rts : List ResourceType) (m : Dict ResourceType) (k : String)
    → is_some (lookup k (keyed rts m)) ≡ (contains (map to_text rts) k || is_some (lookup k m))
unfolding keyed
keyed-lookup [] m k = refl
keyed-lookup (rt ∷ rest) m k =
    ground
      (arith, keyed-lookup rest (insert (to_text rt) rt m) k, lookup-insert (to_text rt) k rt m)

-- the keys of the map are the texts of its types
IsKeyed : Dict ResourceType → Type 0
IsKeyed [] = Unit
IsKeyed ((key, rt) ∷ rest) = (key ≡ to_text rt) × IsKeyed rest

insert-IsKeyed :
    (rt : ResourceType) (m : Dict ResourceType) → IsKeyed m → IsKeyed (insert (to_text rt) rt m)
unfolding insert IsKeyed
insert-IsKeyed rt [] h = (refl, tt)
insert-IsKeyed rt ((key, other) ∷ rest) h = elim (Bool-cases (key == to_text rt)) [
  | inl same ↦ rw same (refl, h.1)
  | inr apart ↦ rw apart (h.0, insert-IsKeyed rt rest h.1)
]

keyed-IsKeyed :
    (rts : List ResourceType) (m : Dict ResourceType) → IsKeyed m → IsKeyed (keyed rts m)
unfolding keyed
keyed-IsKeyed [] m h = h
keyed-IsKeyed (rt ∷ rest) m h =
    keyed-IsKeyed rest (insert (to_text rt) rt m) (insert-IsKeyed rt m h)

missing_in-exact :
    (other m : Dict ResourceType) (k : String)
    → IsKeyed m
    → contains (map to_text (missing_in other m)) k
      ≡ (is_some (lookup k m) && not (is_some (lookup k other)))
unfolding missing_in lookup IsKeyed
missing_in-exact other [] k h = refl
missing_in-exact other ((key, rt) ∷ rest) k h =
    ground (arith, h.0, eq_iff key k, missing_in-exact other rest k h.1)

-- what one entry adds to the texts that are missing
adds : Dict ResourceType → String → (String × ResourceType) → Bool
adds other k e = not (is_some (lookup (e.0) other)) && (to_text (e.1) == k)

missing_in-cons :
    (other m : Dict ResourceType) (k : String) (e : String × ResourceType)
    → contains (map to_text (missing_in other (e ∷ m))) k
      ≡ (adds other k e || contains (map to_text (missing_in other m)) k)
unfolding missing_in adds
missing_in-cons other m k (key, rt) = ground arith

missing_in-permᴰ :
    (other : Dict ResourceType) {m n : Dict ResourceType} (k : String)
    → Permᴰ m n
    → contains (map to_text (missing_in other m)) k ≡ contains (map to_text (missing_in other n)) k
unfolding missing_in
missing_in-permᴰ other k Permᴰ.nil = refl
missing_in-permᴰ other k (Permᴰ.cons {a = a} {b = b} {l₁ = l} {l₂ = l'} e d) = ground (
  arith,
  missing_in-cons other l k a,
  missing_in-cons other l' k b,
  ap (adds other k) e,
  missing_in-permᴰ other k d,
)
missing_in-permᴰ other k (Permᴰ.swap {a = a} {b = b} {a' = a'} {b' = b'} {l = l} e f) = ground (
  arith,
  missing_in-cons other (b ∷ l) k a,
  missing_in-cons other l k b,
  missing_in-cons other (b' ∷ l) k a',
  missing_in-cons other l k b',
  ap (adds other k) e,
  ap (adds other k) f,
)
missing_in-permᴰ other k (Permᴰ.trans d e) = missing_in-permᴰ other k d ∙ missing_in-permᴰ other k e

missing_in-perm :
    (other : Dict ResourceType) {m n : Dict ResourceType} (k : String)
    → Perm m n
    → contains (map to_text (missing_in other m)) k ≡ contains (map to_text (missing_in other n)) k
missing_in-perm other k p = ∥∥₁_elim p (Bool-set _ _) (missing_in-permᴰ other k)

reported :
    (order : Dict ResourceType → Dict ResourceType)
    (shuffles : (m : Dict ResourceType) → Perm (order m) m) (k : String)
    (from to : List ResourceType)
    → contains (map to_text (missing_in (keyed from []) (order (keyed to [])))) k
      ≡ (contains (map to_text to) k && not (contains (map to_text from) k))
unfolding IsKeyed lookup
reported order shuffles k from to = ground (
  arith,
  missing_in-perm (keyed from []) k (shuffles (keyed to [])),
  missing_in-exact (keyed from []) (keyed to []) k (keyed-IsKeyed to [] tt),
  keyed-lookup to [] k,
  keyed-lookup from [] k,
)

-- A type is reported as added where its text is that of a new type and of no old one, and as
-- removed where it is that of an old type and of no new one, in whatever order the loops run over
-- the maps.
pub detect_changes-exact :
    (order : Dict ResourceType → Dict ResourceType)
    (shuffles : (m : Dict ResourceType) → Perm (order m) m) (old new : List ResourceType)
    (k : String)
    → (contains (map to_text (detect_changes order old new).0) k
        ≡ (contains (map to_text new) k && not (contains (map to_text old) k)))
      × (contains (map to_text (detect_changes order old new).1) k
          ≡ (contains (map to_text old) k && not (contains (map to_text new) k)))
unfolding detect_changes
detect_changes-exact order shuffles old new k =
    (reported order shuffles k old new, reported order shuffles k new old)
