-- ===== src/Manifest/Reader/Settled.antt =====
-- Where the item reader returns: on text whose section headers end their lines.
use mathlib.Core.Path.{subst}
use camerahal.Common.{
  ℕ, ◌<◌, ◌≡◌, ◌⊎◌, inl, inr, Bool, true, false, ◌&&◌, List, [], ◌∷◌, ◌++◌, ◌==◌, length, take,
  drop, arith, Bool-cases, if◌then◌else◌, take-append-drop, length-drop,
}
use camerahal.Status.{running}
use camerahal.Manifest.Scanner.{Action, reached, scan, Scan-cases, scan-Scanned, length-scan-le}
use camerahal.Manifest.Chars.{name_first, check_character}
use camerahal.Manifest.Context.{ManifestType, is_compiled, has_sections, Context}
use camerahal.Manifest.Loops.{
  between, skip_step, skip_bom, section_step, name_step, skip_blanks, value_step,
}
use camerahal.Manifest.Reader.{
  Reading, header_end, read_section, initial_value, value_end, read_value, read_property, read_item,
  read_line, get_next_item_internal,
}
use camerahal.Manifest.Reader.Progress.{length-skip_bom-le}
use camerahal.Manifest.Reader.Headers.{ends_line, skip_after_header-ends}

abbrev pub IsSettled : Reading → Type 0
IsSettled (ctx, running) = ⊥
IsSettled _ = Unit

-- Behind every closing bracket only blanks stand before the end of the line.
abbrev pub headers_end : List ℕ → Bool
headers_end [] = true
headers_end (c ∷ rest) = (if c == b']' then ends_line rest else true) && headers_end rest

headers_end-suffix : (xs ys : List ℕ) → headers_end (xs ++ ys) ≡ true → headers_end ys ≡ true
headers_end-suffix [] ys h = h
headers_end-suffix (x ∷ xs) ys h = headers_end-suffix xs ys (ground arith)

scan-headers_end {ℓ} :
    {S : Type ℓ} (step : S → ℕ → Action S) (s : S) (input : List ℕ) (s' : S) (rest : List ℕ)
    → scan step s input ≡ reached s' rest
    → headers_end input ≡ true
    → headers_end rest ≡ true
scan-headers_end step s input s' rest h b =
    let w = scan-Scanned step s input s' rest h in
    headers_end-suffix w.consumed rest (subst (λ l. headers_end l ≡ true) w.split b)

read_value-IsSettled : (ctx : Context) (name start : List ℕ) → IsSettled (read_value ctx name start)
unfolding read_value value_end
read_value-IsSettled ctx name start = elim (Scan-cases (scan value_step initial_value start)) [
  | inl (s, e) ↦ rw (e, read_value) tt
  | inr (s, [], e) ↦
      rw (e, read_value)
        (elim (Bool-cases (s.sequence.count == 0)) [ inl z ↦ rw z tt | inr z ↦ rw z tt ])
  | inr (s, c ∷ rest, e) ↦ rw (e, read_value) tt
]

read_property-IsSettled :
    (ctx : Context) (c : ℕ) (rest : List ℕ) → IsSettled (read_property ctx c rest)
unfolding read_property
read_property-IsSettled ctx c rest = elim (Bool-cases (check_character c name_first)) [
  | inr e ↦ rw e tt
  | inl f ↦
      rw f (elim (Scan-cases (scan (name_step ctx.type) (record { seen = 1; last = 1 }) rest)) [
        | inl (s, e) ↦ rw (e, read_property) tt
        | inr (s, [], e) ↦ rw (e, read_property) tt
        | inr (s, d ∷ rest', e) ↦
            rw (e, read_property)
              (read_value-IsSettled ctx (take s.last (c ∷ rest)) (skip_blanks rest'))
      ])
]

section-stop : (n c : ℕ) → section_step n c ≡ Action.stop → (c == b']') ≡ true
unfolding section_step
section-stop n c h = ground arith

read_section-IsSettled :
    (fuel : ℕ) (ctx : Context) (start : List ℕ)
    → headers_end start ≡ true
    → length start < fuel
    → IsSettled (read_section fuel ctx start)
unfolding read_section header_end
read_section-IsSettled fuel ctx start h enough = elim (Scan-cases (scan section_step 0 start)) [
  | inl (s, e) ↦ rw (e, read_section) tt
  | inr (s, [], e) ↦ rw (e, read_section) tt
  | inr (s, c ∷ rest, e) ↦
      let w = scan-Scanned section_step 0 start s (c ∷ rest) e in
      let ok = scan-headers_end section_step 0 start s (c ∷ rest) e h in
      let bracket = section-stop s c w.leaves in
      let shorter : length rest < fuel =
        omega (arith, length-scan-le section_step 0 start s (c ∷ rest) e) in
      let ends : ends_line rest ≡ true = ground arith in
      rw (e, read_section) (rw (skip_after_header-ends rest fuel shorter ends, header_end) tt)
]

-- No sections, or headers that end their lines, and fuel for every byte.
abbrev IsSafe : ℕ → ManifestType → List ℕ → Type 0
IsSafe fuel type l = (has_sections type ≡ false) ⊎ ((headers_end l ≡ true) × (length l < fuel))

read_item-IsSettled :
    (fuel : ℕ) (ctx : Context) (start : List ℕ)
    → IsSafe fuel ctx.type start
    → IsSettled (read_item fuel ctx start)
unfolding read_item
read_item-IsSettled fuel ctx [] h = tt
read_item-IsSettled fuel ctx (c ∷ rest) (inl n) = rw n (read_property-IsSettled ctx c rest)
read_item-IsSettled fuel ctx (c ∷ rest) (inr (h, k)) =
    elim (Bool-cases (has_sections ctx.type && c == b'[')) [
      | inl e ↦
          rw e (
            read_section-IsSettled fuel ctx rest (headers_end-suffix (c ∷ []) rest h) (omega arith))
      | inr e ↦ rw e (elim (Bool-cases (has_sections ctx.type && ctx.section_start == 0)) [
        | inl e' ↦ rw e' tt
        | inr e' ↦ rw e' (read_property-IsSettled ctx c rest)
      ])
    ]

IsSafe-scan {ℓ} :
    {S : Type ℓ} (step : S → ℕ → Action S) (s : S) (input : List ℕ) (s' : S) (rest : List ℕ)
    (fuel : ℕ) (type : ManifestType)
    → scan step s input ≡ reached s' rest
    → IsSafe fuel type input
    → IsSafe fuel type rest
IsSafe-scan step s input s' rest fuel type e (inl n) = inl n
IsSafe-scan step s input s' rest fuel type e (inr (h, k)) = inr (
  scan-headers_end step s input s' rest e h,
  omega (arith, length-scan-le step s input s' rest e),
)

read_line-IsSettled :
    (fuel : ℕ) (ctx : Context) (start : List ℕ)
    → IsSafe fuel ctx.type start
    → IsSettled (read_line fuel ctx start)
unfolding read_line
read_line-IsSettled fuel ctx start h =
    elim (Scan-cases (scan skip_step (record { mode = between; line = ctx.line }) start)) [
      | inl (s, e) ↦ rw (e, read_line) tt
      | inr (s, rest, e) ↦
          rw (e, read_line)
            (read_item-IsSettled fuel (record ctx { line = s.line }) rest
              (IsSafe-scan _ _ start s rest fuel ctx.type e h))
    ]

headers_end-skip_bom : (l : List ℕ) → headers_end l ≡ true → headers_end (skip_bom l) ≡ true
unfolding skip_bom
headers_end-skip_bom [] h = h
headers_end-skip_bom (a ∷ []) h = h
headers_end-skip_bom (a ∷ b ∷ []) h = h
headers_end-skip_bom (a ∷ b ∷ c ∷ l) h = elim (Bool-cases (a == 0xEF && (b == 0xBB && c == 0xBF))) [
  | inl e ↦ rw e (headers_end-suffix (a ∷ b ∷ c ∷ []) l h)
  | inr e ↦ rw e h
]

-- Text that the reader cannot get stuck in, with the fuel that it takes.
abbrev pub IsReadable : ℕ → ManifestType → List ℕ → Type 0
IsReadable fuel type content =
    (has_sections type ≡ false) ⊎ ((headers_end content ≡ true) × (length content < fuel))

-- One call of the reader returns, with an item or an error, if the manifest has no sections, or if
-- behind every closing bracket only blanks stand before the end of the line and the fuel is above
-- the length of the content.
pub internal-IsSettled :
    (fuel : ℕ) (ctx : Context)
    → IsReadable fuel ctx.type ctx.content
    → IsSettled (get_next_item_internal fuel ctx)
unfolding get_next_item_internal
internal-IsSettled fuel ctx h = elim (Bool-cases (is_compiled ctx.type)) [
  | inl e ↦ rw e (read_item-IsSettled fuel ctx start (here h))
  | inr e ↦ rw e (read_line-IsSettled fuel ctx _ (from_start (ctx.offset == 0) h))
]
  where
    start : List ℕ
    start = drop ctx.offset ctx.content

    here : IsSafe fuel ctx.type ctx.content → IsSafe fuel ctx.type start
    here (inl n) = inl n
    here (inr (s, k)) = inr (
      headers_end-suffix (take ctx.offset ctx.content) start
          (rw (take-append-drop ctx.offset ctx.content) s),
      omega (arith, length-drop ctx.offset ctx.content),
    )

    from_start :
        (t : Bool)
        → IsSafe fuel ctx.type ctx.content
        → IsSafe fuel ctx.type (if t then skip_bom start else start)
    from_start false i = here i
    from_start true (inl n) = inl n
    from_start true (inr (s, k)) = elim (here (inr (s, k))) [
      | inl n ↦ inl n
      | inr (s', k') ↦ inr (headers_end-skip_bom start s', omega (arith, length-skip_bom-le start))
    ]
