-- ===== src/Index/Saved/Texts.antt =====
-- The text of a saved directory, as lines.
use sector_sphere.Base.{
  ℕ, suc, ◌+◌, ◌<◌, ◌≡◌, ◌⊎◌, refl, ap, ◌∙◌, sym, Text, Bool, true, false, Option, some, List, [],
  ◌∷◌, ◌++◌, length, if◌then◌else◌, leb, All, arith,
}
use mathlib.Core.List.{append_assoc}
use sector_sphere.Node
use sector_sphere.Index.Tree.{Attr, Directory, nil, entry}
use sector_sphere.Index.Saved.{put_node, serialize, get_lines}
use sector_sphere.Index.Saved.Lines.{IsKept, NoFeed, line, NoFeed-line}

unfoldable pub saved_lines : Directory → ℕ → List Text
saved_lines nil level = []
saved_lines (entry n a d rest) level =
    let sub = saved_lines d (suc level) in
    line level a ∷ ((if a.is_dir then sub else []) ++ saved_lines rest level)

-- The directory is one that the file can hold, its entries at the level k + 1.
unfoldable pub IsWritten : ℕ → Directory → Type 0
IsWritten k nil = Unit
IsWritten k (entry n a d rest) =
    (n ≡ a.name)
    × IsKept a
    × (suc k < 1024)
    × ((a.is_dir ≡ true) ⊎ (d ≡ nil))
    × IsWritten (suc k) d
    × IsWritten k rest

unfoldable pub joined_text : List Text → Text
joined_text [] = []
joined_text (l ∷ ls) = l ++ b'\n' ∷ joined_text ls

joined_text-append : (ls ks : List Text) → joined_text (ls ++ ks) ≡ joined_text ls ++ joined_text ks
unfolding joined_text
joined_text-append [] ks = refl
joined_text-append (l ∷ ls) ks =
    rw (joined_text-append ls ks) (sym (append_assoc l (b'\n' ∷ joined_text ls) (joined_text ks)))

body_text :
    (b : Bool) (o : Option Text) (ls : List Text)
    → o ≡ some (joined_text ls)
    → (if b then o else some []) ≡ some (joined_text (if b then ls else []))
unfolding joined_text
body_text true o ls h = h
body_text false o ls h = refl

put_node-line :
    (n : Text) (level : ℕ) (a : Attr)
    → n ≡ a.name
    → IsKept a
    → put_node n level a ≡ some (line level a ++ b'\n' ∷ [])
unfolding put_node
put_node-line n level a h k =
    let fits : leb (length n + 64) (length (Node.serialize a)) ≡ false =
      rw h (ground (arith, k.room)) in
    rw (put_node, fits) refl

-- What is written is the lines, each with its line feed.
pub serialize-saved_lines :
    (k : ℕ) (d : Directory)
    → IsWritten k d
    → serialize d (suc k) ≡ some (joined_text (saved_lines d (suc k)))
unfolding serialize saved_lines IsWritten
serialize-saved_lines k nil w = unfold joined_text in refl
serialize-saved_lines k (entry n a d rest) (named, kept, b, body, deeper, further) =
    let sub = saved_lines d (suc (suc k)) in
    let inner = if a.is_dir then sub else [] in
    let more = saved_lines rest (suc k) in
    rw
      (
        serialize,
        put_node-line n (suc k) a named kept,
        body_text a.is_dir (serialize d (suc (suc k))) sub (serialize-saved_lines (suc k) d deeper),
        serialize-saved_lines k rest further,
      )
      (ap some (
        append_assoc (line (suc k) a) (b'\n' ∷ []) (joined_text inner ++ joined_text more)
        ∙ ap (λ t. line (suc k) a ++ b'\n' ∷ t) (sym (joined_text-append inner more))
        ∙ unfold joined_text in refl))

get_line : (l t : Text) → NoFeed l → get_lines (l ++ b'\n' ∷ t) ≡ l ∷ get_lines t
unfolding get_lines
get_line [] t h = refl
get_line (c ∷ l) t h = ground (arith, h.0, get_line l t h.1)

-- Lines without line feeds are read as they were, and an empty one behind the last.
pub get_lines-joined_text :
    (ls : List Text) → All NoFeed ls → get_lines (joined_text ls) ≡ ls ++ [] ∷ []
unfolding joined_text
get_lines-joined_text [] h = unfold get_lines in refl
get_lines-joined_text (l ∷ ls) h =
    get_line l (joined_text ls) h.0 ∙ ap (λ ks. l ∷ ks) (get_lines-joined_text ls h.1)

NoFeed-All : (ls ks : List Text) → All NoFeed ls → All NoFeed ks → All NoFeed (ls ++ ks)
NoFeed-All [] ks h k = k
NoFeed-All (l ∷ ls) ks h k = (h.0, NoFeed-All ls ks h.1 k)

NoFeed-body : (b : Bool) (ls : List Text) → All NoFeed ls → All NoFeed (if b then ls else [])
NoFeed-body true ls h = h
NoFeed-body false ls h = tt

pub saved_lines-NoFeed :
    (k : ℕ) (d : Directory) → IsWritten k d → All NoFeed (saved_lines d (suc k))
unfolding saved_lines IsWritten
saved_lines-NoFeed k nil w = tt
saved_lines-NoFeed k (entry n a d rest) (named, kept, b, body, deeper, further) = (
  NoFeed-line (suc k) a b kept,
  NoFeed-All (if a.is_dir then saved_lines d (suc (suc k)) else []) (saved_lines rest (suc k))
      (NoFeed-body a.is_dir (saved_lines d (suc (suc k))) (saved_lines-NoFeed (suc k) d deeper))
      (saved_lines-NoFeed k rest further),
)
