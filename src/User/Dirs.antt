-- ===== src/User/Dirs.antt =====
-- User::deserialize for lists of directories, as security/security.cpp writes them: each directory with
-- a ';' behind it.
use sector_sphere.Base.{
  ℕ, zero, suc, ◌≤◌, ◌≡◌, ◌≢◌, refl, sym, ap, ◌∙◌, Text, none, some, List, [], ◌∷◌, ◌++◌, map, All,
  arith, length,
}
use sector_sphere.User.{serialize_dirs, split, with_slash, dirs_loop, deserialize_dirs}
use mathlib.Core.List.{append_assoc, append-nil}

abbrev pub semicolon : ℕ
semicolon = b';'

abbrev pub IsDir : Text → Type 0
IsDir = All (λ c. c ≢ semicolon)

split-append : (d rest : Text) → IsDir d → split (d ++ semicolon ∷ rest) ≡ (d, some rest)
unfolding split
split-append [] rest h = refl
split-append (c ∷ d) rest h = ground (arith, split-append d rest h.1)

dirs_step :
    (fuel : ℕ) (buf d rest : Text) (dirs : List Text)
    → IsDir d
    → dirs_loop (suc fuel) buf (d ++ semicolon ∷ rest) dirs
      ≡ dirs_loop fuel buf rest (dirs ++ with_slash d ∷ [])
unfolding dirs_loop split
dirs_step fuel buf [] rest dirs h = refl
dirs_step fuel buf (c ∷ d) rest dirs h =
    ap
      (λ r.
        dirs_loop fuel buf (elim r.1 [ none ↦ buf | some s' ↦ s' ]) (dirs ++ with_slash r.0 ∷ []))
      (split-append (c ∷ d) rest h)

dirs_loop-serialize_dirs :
    (fuel : ℕ) (buf : Text) (ds dirs : List Text)
    → All IsDir ds
    → length ds ≤ fuel
    → dirs_loop fuel buf (serialize_dirs ds) dirs ≡ some (dirs ++ map with_slash ds)
unfolding dirs_loop serialize_dirs
dirs_loop-serialize_dirs fuel buf [] dirs h k = ap some (sym (append-nil dirs))
dirs_loop-serialize_dirs zero buf (d ∷ ds) dirs h k = ground arith
dirs_loop-serialize_dirs (suc fuel) buf (d ∷ ds) dirs h k =
    dirs_step fuel buf d (serialize_dirs ds) dirs h.0
    ∙ dirs_loop-serialize_dirs fuel buf ds (dirs ++ with_slash d ∷ []) h.1 (omega arith)
    ∙ ap some (append_assoc dirs (with_slash d ∷ []) (map with_slash ds))

-- User::deserialize reads back, behind the directories that are there, the list that the security
-- server serialises, with a '/' put before each directory that does not start with one: one round
-- for each directory is enough. No directory contains a ';'.
pub deserialize_dirs-serialize_dirs :
    (fuel : ℕ) (dirs input : List Text)
    → All IsDir input
    → length input ≤ fuel
    → deserialize_dirs fuel dirs (serialize_dirs input) ≡ some (dirs ++ map with_slash input)
unfolding deserialize_dirs
deserialize_dirs-serialize_dirs fuel dirs input h k =
    dirs_loop-serialize_dirs fuel (serialize_dirs input) input dirs h k

split_whole : (t : Text) → IsDir t → split t ≡ (t, none)
unfolding split
split_whole [] h = refl
split_whole (c ∷ t) h = ground (arith, split_whole t h.1)

dirs_loop_again :
    (fuel : ℕ) (all ds : List Text) (c : ℕ) (t : Text) (dirs : List Text)
    → All IsDir all
    → All IsDir ds
    → IsDir (c ∷ t)
    → dirs_loop fuel (serialize_dirs all ++ c ∷ t) (serialize_dirs ds ++ c ∷ t) dirs ≡ none
unfolding dirs_loop serialize_dirs
dirs_loop_again zero all [] c t dirs g h k = refl
dirs_loop_again zero all ([] ∷ ds) c t dirs g h k = refl
dirs_loop_again zero all ((e ∷ d) ∷ ds) c t dirs g h k = refl
dirs_loop_again (suc fuel) all [] c t dirs g h k =
    ap
      (λ r.
        dirs_loop fuel (serialize_dirs all ++ c ∷ t)
          (elim r.1 [ none ↦ serialize_dirs all ++ c ∷ t | some s' ↦ s' ])
          (dirs ++ with_slash r.0 ∷ []))
      (split_whole (c ∷ t) k)
    ∙ dirs_loop_again fuel all all c t (dirs ++ with_slash (c ∷ t) ∷ []) g g k
dirs_loop_again (suc fuel) all (d ∷ ds) c t dirs g h k =
    ap (λ s. dirs_loop (suc fuel) (serialize_dirs all ++ c ∷ t) s dirs)
      (append_assoc d (semicolon ∷ serialize_dirs ds) (c ∷ t))
    ∙ dirs_step fuel (serialize_dirs all ++ c ∷ t) d (serialize_dirs ds ++ c ∷ t) dirs h.0
    ∙ dirs_loop_again fuel all ds c t (dirs ++ with_slash d ∷ []) g h.1 k

-- On a list whose last directory has no ';' behind it User::deserialize never ends, whatever the number
-- of rounds: it starts again from the front.
pub deserialize_dirs_unterminated :
    (fuel : ℕ) (dirs input : List Text) (c : ℕ) (t : Text)
    → All IsDir input
    → IsDir (c ∷ t)
    → deserialize_dirs fuel dirs (serialize_dirs input ++ c ∷ t) ≡ none
unfolding deserialize_dirs
deserialize_dirs_unterminated fuel dirs input c t h k =
    dirs_loop_again fuel input input c t dirs h h k
