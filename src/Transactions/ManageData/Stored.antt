-- ===== src/Transactions/ManageData/Stored.antt =====
-- The data entries after a change of one of them: transactions/ManageDataOpFrame.cpp.
use essa_core.Prelude.{
  ℕ, suc, ◌≡◌, refl, Bool, true, false, ◌&&◌, not, ◌==◌, mem, length, arith, none, some, List, [],
  ◌∷◌, if◌then◌else◌,
}
use essa_core.Transactions.ManageData.{load_data, modify_data, erase_data}

abbrev pub names : List (ℕ × ℕ) → List ℕ
names [] = []
names ((n, v) ∷ es) = n ∷ names es

-- No name twice.
abbrev pub distinct_names : List (ℕ × ℕ) → Bool
distinct_names [] = true
distinct_names ((n, v) ∷ es) = not (mem n (names es)) && distinct_names es

load_missing :
    (name : ℕ) (es : List (ℕ × ℕ)) → mem name (names es) ≡ false → load_data name es ≡ none
unfolding load_data
load_missing name [] h = refl
load_missing name ((n, v) ∷ es) h = ground (arith, h, load_missing name es)

pub load_data-modify_data :
    (name value other : ℕ) (es : List (ℕ × ℕ)) (old : ℕ)
    → load_data name es ≡ some old
    → load_data other (modify_data name value es)
      ≡ (if other == name then some value else load_data other es)
unfolding load_data modify_data
load_data-modify_data name value other [] old h = absurd (ground (arith, h))
load_data-modify_data name value other ((n, v) ∷ es) old h =
    ground (arith, h, load_data-modify_data name value other es old)

pub load_data-erase_data :
    (name other : ℕ) (es : List (ℕ × ℕ))
    → distinct_names es ≡ true
    → load_data other (erase_data name es) ≡ (if other == name then none else load_data other es)
unfolding load_data erase_data
load_data-erase_data name other [] d = ground arith
load_data-erase_data name other ((n, v) ∷ es) d =
    ground (arith, d, load_data-erase_data name other es, load_missing n es, load_missing other es)

pub length-modify_data :
    (name value : ℕ) (es : List (ℕ × ℕ)) → length (modify_data name value es) ≡ length es
unfolding modify_data
length-modify_data name value [] = refl
length-modify_data name value ((n, v) ∷ es) = ground (arith, length-modify_data name value es)

pub length-erase_data :
    (name old : ℕ) (es : List (ℕ × ℕ))
    → load_data name es ≡ some old
    → suc (length (erase_data name es)) ≡ length es
unfolding load_data erase_data
length-erase_data name old [] h = absurd (ground (arith, h))
length-erase_data name old ((n, v) ∷ es) h = ground (arith, h, length-erase_data name old es)
