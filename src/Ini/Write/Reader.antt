-- ===== src/Ini/Write/Reader.antt =====
-- A reader of grafana.ini: the lines of a text, and the sections that they make. It is not code of
-- the operator; it says what a text of settings means.
use Prim.Native.Char.{code}
use text.Mathlib.TextLemmas.{append_assoc as text_append_assoc, nil-append, cons-append}
use grafana_operator.Common.{
  String, ◌≡◌, refl, sym, ap, ◌++◌, ◌∙◌, Bool, true, false, ◌&&◌, not, List, [], ◌∷◌, map,
  sort_strings, concat, Assoc, eqb, if◌then◌else◌, arith, ◌⧺◌, insert_sorted,
}
use grafana_operator.Ini.Write.{end_line}

-- The first line of a text, and those behind it.
unfoldable pub split_lines : String → String × List String
split_lines String.[] = ("", [])
split_lines (String.◌∷◌ c s) =
    let (l, ls) = split_lines s in if eqb (code c) 10 then ("", l ∷ ls) else (String.◌∷◌ c l, ls)

unfoldable pub drop_last : String → String
drop_last String.[] = ""
drop_last (String.◌∷◌ c String.[]) = ""
drop_last (String.◌∷◌ c (String.◌∷◌ d s)) = String.◌∷◌ c (drop_last (String.◌∷◌ d s))

-- The lines in front of the first header, and the sections, of a list of lines.
unfoldable pub read_line :
    String → List String × Assoc (List String) → List String × Assoc (List String)
unfolding drop_last
read_line String.[] r = r
read_line (String.◌∷◌ c s) (items, sections) =
    if eqb (code c) b'['
    then ([], (drop_last s, items) ∷ sections)
    else ((String.◌∷◌ c s) ∷ items, sections)

unfoldable pub read_lines : List String → List String × Assoc (List String)
unfolding read_line
read_lines [] = ([], [])
read_lines (l ∷ ls) = read_line l (read_lines ls)

unfoldable pub all_lines : String → List String
unfolding split_lines
all_lines text = let (l, ls) = split_lines text in l ∷ ls

-- The sections of a text, with the lines of each.
unfoldable pub read_ini : String → Assoc (List String)
unfolding read_lines all_lines
read_ini text = (read_lines (all_lines text)).1

abbrev pub is_one_line : String → Bool
is_one_line String.[] = true
is_one_line (String.◌∷◌ c s) = not (eqb (code c) 10) && is_one_line s

-- A line of a section: not empty, and no header.
abbrev pub is_setting : String → Bool
is_setting String.[] = false
is_setting (String.◌∷◌ c s) = not (eqb (code c) b'[') && is_one_line (String.◌∷◌ c s)

abbrev pub all : (String → Bool) → List String → Bool
all p [] = true
all p (x ∷ l) = p x && all p l

-- A newline in front of a text.
pub newline-append : (s : String) → "\n" ⧺ s ≡ String.◌∷◌ "\n" s
newline-append s = cons-append "\n" "" s ∙ ap (String.◌∷◌ "\n") (nil-append s)

pub split_lines-end_line :
    (x s : String)
    → is_one_line x ≡ true
    → split_lines (x ⧺ ("\n" ⧺ s)) ≡ (x, (split_lines s).0 ∷ (split_lines s).1)
unfolding split_lines
split_lines-end_line String.[] s h = rw (nil-append, newline-append) refl
split_lines-end_line (String.◌∷◌ c x) s h =
    rw (cons-append c x) (rw (split_lines-end_line x s (ground arith)) (ground arith))

pub all_lines-end_line :
    (x s : String) → is_one_line x ≡ true → all_lines (end_line x ⧺ s) ≡ x ∷ all_lines s
unfolding all_lines end_line
all_lines-end_line x s h = rw (text_append_assoc x "\n" s) (rw (split_lines-end_line x s h))

pub all_lines-newline : (s : String) → all_lines ("\n" ⧺ s) ≡ "" ∷ all_lines s
unfolding all_lines split_lines
all_lines-newline s = rw (newline-append s) refl

pub all_lines-concat :
    (xs : List String) (s : String)
    → all is_one_line xs ≡ true
    → all_lines (concat (map end_line xs) ⧺ s) ≡ xs ++ all_lines s
unfolding concat
all_lines-concat [] s h = rw (nil-append s)
all_lines-concat (x ∷ xs) s h = rw (text_append_assoc (end_line x) (concat (map end_line xs)) s) (
    rw (all_lines-end_line x (concat (map end_line xs) ⧺ s) (ground arith))
      (ap (◌∷◌ x) (all_lines-concat xs s (ground arith))))

pub drop_last-append : (k : String) → drop_last (k ⧺ "]") ≡ k
unfolding drop_last
drop_last-append String.[] = refl
drop_last-append (String.◌∷◌ c String.[]) = rw (cons-append c "" "]") refl
drop_last-append (String.◌∷◌ c (String.◌∷◌ d k)) = rw (cons-append c (String.◌∷◌ d k) "]") (
    rw (cons-append d k "]") (
      ap (String.◌∷◌ c)
        (ap drop_last (sym (cons-append d k "]")) ∙ drop_last-append (String.◌∷◌ d k))))

pub read_lines-settings :
    (xs r : List String)
    → all is_setting xs ≡ true
    → read_lines (xs ++ r) ≡ (xs ++ (read_lines r).0, (read_lines r).1)
unfolding read_lines
read_lines-settings [] r h = refl
read_lines-settings (String.[] ∷ xs) r h = cc
read_lines-settings ((String.◌∷◌ c x) ∷ xs) r h =
    rw (read_lines-settings xs r (ground arith)) (ground arith)

pub is_setting-is_one_line : (x : String) → is_setting x ≡ true → is_one_line x ≡ true
is_setting-is_one_line String.[] h = refl
is_setting-is_one_line (String.◌∷◌ c x) h = ground arith

pub all_one_line : (xs : List String) → all is_setting xs ≡ true → all is_one_line xs ≡ true
all_one_line [] h = refl
all_one_line (x ∷ xs) h = ground (arith, is_setting-is_one_line x, all_one_line xs)

pub insert_sorted-all :
    (p : String → Bool) (x : String) (l : List String)
    → p x ≡ true
    → all p l ≡ true
    → all p (insert_sorted x l) ≡ true
unfolding insert_sorted
insert_sorted-all p x [] h k = ground arith
insert_sorted-all p x (y ∷ l) h k = ground (arith, insert_sorted-all p x l)

pub sort_strings-all :
    (p : String → Bool) (l : List String) → all p l ≡ true → all p (sort_strings l) ≡ true
unfolding sort_strings
sort_strings-all p [] h = refl
sort_strings-all p (x ∷ l) h =
    insert_sorted-all p x (sort_strings l) (ground arith) (sort_strings-all p l (ground arith))

pub bracket-is_one_line : (k : String) → is_one_line k ≡ true → is_one_line (k ⧺ "]") ≡ true
bracket-is_one_line String.[] h = refl
bracket-is_one_line (String.◌∷◌ c k) h =
    rw (cons-append c k "]") (ground (arith, bracket-is_one_line k))

pub bracket-append : (k : String) → "[" ⧺ (k ⧺ "]") ≡ String.◌∷◌ "[" (k ⧺ "]")
bracket-append k = cons-append "[" "" (k ⧺ "]") ∙ ap (String.◌∷◌ "[") (nil-append (k ⧺ "]"))
