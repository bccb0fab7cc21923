-- ===== src/Meta/Paths.antt =====
-- Paths and the lists of names that they stand for.
use mathlib.Core.List.{append_assoc, append-nil}
use sector_sphere.Base.{
  ℕ, ◌≡◌, ◌≢◌, refl, sym, ap, ◌∙◌, ◌↔◌, Text, true, List, [], ◌∷◌, ◌++◌, arith, length,
  length-append, All, ◌==◌, Bool-cases, inl, inr,
}
use sector_sphere.Meta.{
  slash, Scan, end_token, parse_step, parse_loop, parse_path, Revision, revise_step, revise_loop,
  drop_last, close_revision, revise_path,
}

-- The path of a list of names.
abbrev pub join : List Text → Text
join [] = []
join (n ∷ ns) = slash ∷ n ++ join ns

abbrev pub render : List Text → Text
render [] = slash ∷ []
render (n ∷ ns) = join (n ∷ ns)

join-snoc : (ns : List Text) (n : Text) → join (ns ++ n ∷ []) ≡ join ns ++ slash ∷ n
join-snoc [] n = simp append-nil
join-snoc (m ∷ ns) n = simp (join-snoc ns n, append_assoc)

drop_last-snoc : (s : Text) (c : ℕ) → drop_last (s ++ c ∷ []) ≡ s
unfolding drop_last
drop_last-snoc [] c = refl
drop_last-snoc (d ∷ []) c = refl
drop_last-snoc (d ∷ e ∷ s) c = ap (◌∷◌ d) (drop_last-snoc (e ∷ s) c)

-- The two loops walk the path in step.
abbrev Agrees : Scan → Revision → Type 0
Agrees s r =
    (r.newpath ≡ join s.result ++ slash ∷ s.token) × (r.after_slash ≡ (length s.token == 0))

step-Agrees :
    (c : ℕ) (s : Scan) (r : Revision) (t : Text)
    → s.token ≡ t
    → Agrees s r
    → Agrees (parse_step c s) (revise_step c r)
unfolding parse_step revise_step
step-Agrees c s r [] e h = ground (arith, append_assoc (join s.result) (slash ∷ []) (c ∷ []))
step-Agrees c s r (d ∷ t) e h = ground (
  arith,
  join-snoc s.result s.token,
  append_assoc (join s.result) (slash ∷ s.token) (c ∷ []),
  append_assoc (join s.result) (slash ∷ s.token) (slash ∷ []),
)

loop-Agrees :
    (path : Text) (s : Scan) (r : Revision)
    → Agrees s r
    → Agrees (parse_loop path s) (revise_loop path r)
unfolding parse_loop revise_loop
loop-Agrees [] s r h = h
loop-Agrees (c ∷ path) s r h =
    loop-Agrees path (parse_step c s) (revise_step c r) (step-Agrees c s r s.token refl h)

close-render :
    (s : Scan) (r : Revision) (t : Text) (ns : List Text)
    → s.token ≡ t
    → s.result ≡ ns
    → Agrees s r
    → close_revision r ≡ render (end_token s).result
unfolding close_revision drop_last
close-render s r [] [] e f h = ground arith
close-render s r [] (n ∷ ns) e f h =
    ground (arith, drop_last-snoc (join (n ∷ ns)) slash, length-append (join (n ∷ ns)) (slash ∷ []))
close-render s r (c ∷ t) [] e f h = ground (arith, append-nil s.token)
close-render s r (c ∷ t) (n ∷ ns) e f h = ground (arith, join-snoc s.result s.token)

-- `revisePath` gives the canonical path of the names that `parsePath` reads: each name behind one
-- slash, and a single slash where there is no name.
pub revise_path-render : (path : Text) → revise_path path ≡ render (parse_path path)
unfolding revise_path parse_path
revise_path-render path = close-render (parse_loop path _) (revise_loop path _) _ _ refl refl (
    loop-Agrees path (record { token = []; result = [] })
      (record { newpath = slash ∷ []; after_slash = true }) (refl, refl))

abbrev pub NoSlash : Text → Type 0
NoSlash = All (λ c. c ≢ slash)

abbrev pub IsName : Text → Type 0
IsName n = (n ≢ []) × NoSlash n

All-snoc : (ns : List Text) (n : Text) → All IsName ns → IsName n → All IsName (ns ++ n ∷ [])
All-snoc [] n h p = (p, tt)
All-snoc (m ∷ ns) n h p = (h.0, All-snoc ns n h.1 p)

NoSlash-snoc : (t : Text) (c : ℕ) → NoSlash t → c ≢ slash → NoSlash (t ++ c ∷ [])
NoSlash-snoc [] c h p = (p, tt)
NoSlash-snoc (d ∷ t) c h p = (h.0, NoSlash-snoc t c h.1 p)

abbrev Reads : Scan → Type 0
Reads s = NoSlash s.token × All IsName s.result

end_token-Reads : (s : Scan) (t : Text) → s.token ≡ t → Reads s → Reads (end_token s)
end_token-Reads s [] e h = ground arith
end_token-Reads s (c ∷ t) e h = ground (arith, All-snoc s.result s.token h.1)

parse_step-Reads : (c : ℕ) (s : Scan) → Reads s → Reads (parse_step c s)
unfolding parse_step
parse_step-Reads c s h = elim (Bool-cases (c == slash)) [
  | inl e ↦ rw e (end_token-Reads s s.token refl h)
  | inr e ↦ rw e (NoSlash-snoc s.token c h.0 (ground arith), h.1)
]

parse_loop-Reads : (path : Text) (s : Scan) → Reads s → Reads (parse_loop path s)
unfolding parse_loop
parse_loop-Reads [] s h = h
parse_loop-Reads (c ∷ path) s h = parse_loop-Reads path (parse_step c s) (parse_step-Reads c s h)

-- What `parsePath` returns are names: not empty, and with no slash.
pub parse_path-IsName : (path : Text) → All IsName (parse_path path)
unfolding parse_path
parse_path-IsName path =
    let s = parse_loop path (record { token = []; result = [] }) in
    (end_token-Reads s s.token refl (parse_loop-Reads path _ (tt, tt))).1

parse_loop-name :
    (n rest : Text) (s : Scan)
    → NoSlash n
    → parse_loop (n ++ rest) s ≡ parse_loop rest (record s { token = s.token ++ n })
unfolding parse_loop parse_step
parse_loop-name [] rest s h = simp append-nil
parse_loop-name (c ∷ n) rest s h = ground (
  arith,
  parse_loop-name n rest (record s { token = s.token ++ c ∷ [] }) h.1,
  append_assoc s.token (c ∷ []) n,
)

end_token-token : (s : Scan) → (end_token s).token ≡ []
end_token-token s = end_token-nil s s.token refl
  where
    end_token-nil : (s : Scan) (t : Text) → s.token ≡ t → (end_token s).token ≡ []
    end_token-nil s [] e = ground arith
    end_token-nil s (c ∷ t) e = ground arith

end_token-result :
    (n : Text) (ns : List Text)
    → n ≢ []
    → (end_token (record { token = n; result = ns })).result ≡ ns ++ n ∷ []
end_token-result [] ns h = absurd (h refl)
end_token-result (c ∷ n) ns h = ground arith

parse_loop-join :
    (ns : List Text) (s : Scan)
    → All IsName ns
    → (end_token (parse_loop (join ns) s)).result ≡ (end_token s).result ++ ns
unfolding parse_loop parse_step
parse_loop-join [] s h = simp append-nil
parse_loop-join (n ∷ ns) s h = ground (
  arith,
  parse_loop-name n (join ns) (end_token s) h.0.1,
  end_token-token s,
  parse_loop-join ns (record { token = n; result = (end_token s).result }) h.1,
  end_token-result n (end_token s).result h.0.0,
  append_assoc (end_token s).result (n ∷ []) ns,
)

-- Reading back the path of a list of names gives the list.
pub parse_path-render : (ns : List Text) → All IsName ns → parse_path (render ns) ≡ ns
unfolding parse_path
parse_path-render [] h = unfold parse_loop parse_step in refl
parse_path-render (n ∷ ns) h = parse_loop-join (n ∷ ns) (record { token = []; result = [] }) h

-- The canonical form has the same names, so revising twice is revising once.
pub parse_path-revise_path : (path : Text) → parse_path (revise_path path) ≡ parse_path path
parse_path-revise_path path =
    rw revise_path-render (parse_path-render (parse_path path) (parse_path-IsName path))

-- Two paths have the same canonical form exactly if they have the same names.
pub revise_path_iff : (p q : Text) → (revise_path p ≡ revise_path q) ↔ (parse_path p ≡ parse_path q)
revise_path_iff p q = (
  λ h. sym (parse_path-revise_path p) ∙ ap parse_path h ∙ parse_path-revise_path q,
  λ h. revise_path-render p ∙ ap render h ∙ sym (revise_path-render q),
)
