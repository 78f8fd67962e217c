-- ===== src/Knowledge/Chunking/Windows.antt =====
-- The windows of the loop of `_split`, knowledge/infrastructure/chunking/general.py.
use ragflow_agent.Base.{
  ℕ, zero, suc, ◌+◌, ◌-◌, ◌≤◌, ◌<◌, min, ◌≡◌, refl, sym, ap, ◌∙◌, inl, inr, some, List, [], ◌∷◌,
  ◌++◌, length, take, drop, take-append-drop, drop-drop, drop-append, drop_all, length-drop,
  length-take, All, arith, nat_eq, Bool-cases,
}
use ragflow_agent.Knowledge.Chunking.{windows}

module _ {A : Type 0} where
  -- The tokens of a window.
  abbrev pub cut : List A → ℕ × ℕ → List A
  cut tokens (a, b) = take (b - a) (drop a tokens)

  -- The windows after the first one without their overlap.
  abbrev pub fresh : ℕ → List A → List (ℕ × ℕ) → List A
  fresh overlap tokens [] = []
  fresh overlap tokens (w ∷ ws) = drop overlap (cut tokens w) ++ fresh overlap tokens ws

  -- The tokens of all windows, each once.
  abbrev pub rejoined : ℕ → List A → List (ℕ × ℕ) → List A
  rejoined overlap tokens [] = []
  rejoined overlap tokens (w ∷ ws) = cut tokens w ++ fresh overlap tokens ws

-- A window is not empty, within the tokens and within the limit.
abbrev pub IsWindow : ℕ → ℕ → ℕ × ℕ → Type 0
IsWindow limit count (a, b) = (a < b) × (b ≤ count) × (b ≤ a + limit)

module _ {A : Type 0} (limit overlap : ℕ) (small : overlap < limit) (tokens : List A) where
  abbrev last_of : ℕ → ℕ
  last_of start = min (start + limit) (length tokens)

  -- A window and what follows it.
  cut-fresh :
      (start end : ℕ) (ws : List (ℕ × ℕ))
      → start ≤ end
      → fresh overlap tokens ws ≡ drop end tokens
      → rejoined overlap tokens ((start, end) ∷ ws) ≡ drop start tokens
  cut-fresh start end ws h e =
      ap (λ t. cut tokens (start, end) ++ t)
        (e ∙ sym (drop-drop (end - start) start tokens ∙ ap (λ n. drop n tokens) (omega arith)))
      ∙ take-append-drop (end - start) (drop start tokens)

  -- The windows from a start that overlaps the window before it.
  fresh-rejoined :
      (start end : ℕ) (ws : List (ℕ × ℕ))
      → start + overlap ≤ end
      → end ≤ length tokens
      → rejoined overlap tokens ((start, end) ∷ ws) ≡ drop start tokens
      → fresh overlap tokens ((start, end) ∷ ws) ≡ drop (start + overlap) tokens
  fresh-rejoined start end ws h k e =
      sym (
        drop-append overlap (cut tokens (start, end)) (fresh overlap tokens ws)
          (omega (arith, length-take (end - start) (drop start tokens), length-drop start tokens)))
      ∙ ap (drop overlap) e
      ∙ drop-drop overlap start tokens

  abbrev Splits : ℕ → ℕ → Type 0
  Splits fuel start =
      (ws : List (ℕ × ℕ)) × (windows fuel limit overlap (length tokens) start
        ≡ some ((start, last_of start) ∷ ws))
      × (rejoined overlap tokens ((start, last_of start) ∷ ws) ≡ drop start tokens)
      × All (IsWindow limit (length tokens)) ((start, last_of start) ∷ ws)

  windows-Splits :
      (fuel start : ℕ) → start < length tokens → length tokens - start < fuel → Splits fuel start
  unfolding windows
  windows-Splits zero start h k = absurd (omega arith)
  windows-Splits (suc fuel) start h k = elim (Bool-cases (nat_eq (last_of start) (length tokens))) [
    | inl e ↦ (
      [],
      ground arith,
      cut-fresh start (last_of start) [] (omega arith)
          (sym (drop_all (last_of start) tokens (ground arith))),
      (ground arith, tt),
    )
    | inr e ↦
        let next = last_of start - overlap in
        let (ws, p, q, r) = windows-Splits fuel next (ground arith) (ground arith) in
        (
          (next, last_of next) ∷ ws,
          ground arith,
          cut-fresh start (last_of start) ((next, last_of next) ∷ ws) (omega arith) (
              fresh-rejoined next (last_of next) ws (ground arith) (omega arith) q
              ∙ ap (λ n. drop n tokens) (ground arith)),
          (ground arith, r),
        )
  ]

-- With an overlap below the limit, one unit of fuel for each token and one more is enough for the
-- loop over the tokens of a text. Its windows are not empty and hold at most `limit` tokens, and
-- put together again, each window after the first without its first `overlap` tokens, they are the
-- tokens of the text in their order.
pub windows_rejoin :
    {A : Type 0} (limit overlap : ℕ)
    → overlap < limit
    → (tokens : List A)
    → (ws : List (ℕ × ℕ)) × (windows (suc (length tokens)) limit overlap (length tokens) 0
        ≡ some ws)
      × (rejoined overlap tokens ws ≡ tokens)
      × All (IsWindow limit (length tokens)) ws
unfolding windows
windows_rejoin limit overlap small [] = ([], ground arith, refl, tt)
windows_rejoin limit overlap small (x ∷ xs) =
    let (ws, p, q, r) =
      windows-Splits limit overlap small (x ∷ xs) (suc (suc (length xs))) 0 (omega arith)
        (omega arith) in
    ((0, last_of limit overlap small (x ∷ xs) 0) ∷ ws, p, q, r)
