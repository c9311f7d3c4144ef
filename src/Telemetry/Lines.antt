-- ===== src/Telemetry/Lines.antt =====
-- agent/services/player_count_observer.py: the lines of the text that was appended to the log.
use Prim.Native.Char.{Char, code}
use Prim.Native.String.{[] as nil, ◌∷◌ as ◌⊳◌, ◌++◌ as ◌+++◌}
use text.Mathlib.TextLemmas.{nil-append, cons-append, append-nil, append_assoc}
use pitlane_agent.Common.{
  ℕ, String, ◌≡◌, refl, sym, ap, ◌∙◌, Bool, true, false, List, [], ◌∷◌, ◌&&◌, ◌||◌, if◌then◌else◌,
  leb, ◌==◌,
}

-- The code points that end a line.
unfoldable pub is_line_end : ℕ → Bool
is_line_end c =
    (leb 10 c && leb c 13) || (leb 28 c && leb c 30) || c == 0x85 || c == 0x2028 || c == 0x2029

-- A line end that stands alone: a carriage return before a line feed does not.
abbrev pub ends_line : Char → String → Bool
ends_line c nil = is_line_end (code c)
ends_line c (d ⊳ s) = if code c == 13 && code d == 10 then false else is_line_end (code c)

abbrev pub push : Char → List String → List String
push c [] = (c ⊳ nil) ∷ []
push c (l ∷ ls) = (c ⊳ l) ∷ ls

-- `splitlines(keepends=True)`.
unfoldable pub split_lines : String → List String
unfolding is_line_end
split_lines nil = []
split_lines (c ⊳ s) =
    let rest = split_lines s in if ends_line c s then (c ⊳ nil) ∷ rest else push c rest

-- `endswith(('\n', '\r'))`.
unfoldable pub ends_with_newline : String → Bool
ends_with_newline nil = false
ends_with_newline (c ⊳ nil) = code c == 10 || code c == 13
ends_with_newline (c ⊳ (d ⊳ s)) = ends_with_newline (d ⊳ s)

-- The lines without an unfinished last one, and this one, or the empty text.
unfoldable pub pop_unfinished : List String → List String × String
unfolding ends_with_newline
pop_unfinished [] = ([], "")
pop_unfinished (l ∷ []) = if ends_with_newline l then (l ∷ [], "") else ([], l)
pop_unfinished (l ∷ m ∷ ls) = let (rest, buffer) = pop_unfinished (m ∷ ls) in (l ∷ rest, buffer)

unfoldable pub concat : List String → String
concat [] = ""
concat (l ∷ ls) = l +++ concat ls

concat-push : (c : Char) (ls : List String) → concat (push c ls) ≡ (c ⊳ concat ls)
unfolding concat
concat-push c [] = cons-append c nil "" ∙ ap (λ (t : String). c ⊳ t) (nil-append "")
concat-push c (l ∷ ls) = cons-append c l (concat ls)

concat-cut :
    (b : Bool) (c : Char) (ls : List String)
    → concat (if b then (c ⊳ nil) ∷ ls else push c ls) ≡ (c ⊳ concat ls)
unfolding concat
concat-cut true c ls =
    cons-append c nil (concat ls) ∙ ap (λ (t : String). c ⊳ t) (nil-append (concat ls))
concat-cut false c ls = concat-push c ls

concat-split_lines : (s : String) → concat (split_lines s) ≡ s
unfolding concat split_lines
concat-split_lines nil = refl
concat-split_lines (c ⊳ s) =
    concat-cut (ends_line c s) c (split_lines s) ∙ ap (λ (t : String). c ⊳ t) (concat-split_lines s)

concat-pop_unfinished :
    (ls : List String) → let r = pop_unfinished ls in concat r.0 +++ r.1 ≡ concat ls
unfolding pop_unfinished concat
concat-pop_unfinished [] = nil-append ""
concat-pop_unfinished (l ∷ []) =
    elim (ends_with_newline l)
      as (λ b.
        let r : List String × String = (if b then (l ∷ [], "") else ([], l)) in
        concat r.0 +++ r.1 ≡ l +++ "") [
          | true ↦ append-nil (l +++ "")
          | false ↦ nil-append l ∙ sym (append-nil l)
        ]
concat-pop_unfinished (l ∷ m ∷ ls) =
    append_assoc l (concat (pop_unfinished (m ∷ ls)).0) (pop_unfinished (m ∷ ls)).1
    ∙ ap (λ (t : String). l +++ t) (concat-pop_unfinished (m ∷ ls))

-- The lines that a text gives and the unfinished line that is kept for the next reading are,
-- joined, the text.
pub pop_unfinished-split_lines :
    (s : String) → let r = pop_unfinished (split_lines s) in concat r.0 +++ r.1 ≡ s
pop_unfinished-split_lines s = concat-pop_unfinished (split_lines s) ∙ concat-split_lines s
