-- ===== src/Cash/Command/Split.antt =====
-- A command line is taken apart into the words that blanks have joined, and each becomes a name.
use radish_os.Prelude.{
  ℕ, ◌<◌, ◌≡◌, refl, sym, ap, subst, ◌∙◌, inl, inr, Bool, false, not, ◌&&◌, Option, none, some,
  List, [], ◌∷◌, ◌++◌, ◌==◌, arith, length, Bool-cases,
}
use mathlib.Core.List.{append_assoc, append-nil}
use radish_os.Cash.Text.{is_space}
use radish_os.Cash.Ast.{Node, Nodes, no_nodes, next_node, push_node}
use radish_os.Cash.Parser.Sound.{IsSound, AllSound, push_node-AllSound}
use radish_os.Cash.Command.{Words, no_words, word_node, add_word, flush_command_word, split_line}

-- The path is a name once there is one, and so are the arguments.
abbrev pub SoundPath : Option Node → Type 0
SoundPath none = Unit {0}
SoundPath (some p) = IsSound p

abbrev pub SoundWords : Words → Type 0
SoundWords words = SoundPath words.path × AllSound words.arguments

flush-SoundWords :
    (words : Words) (curr : List ℕ) → SoundWords words → SoundWords (flush_command_word words curr)
flush-SoundWords words [] h = h
flush-SoundWords words (c ∷ curr) h = added words.path refl
  where
    added : (o : Option Node) → words.path ≡ o → SoundWords (add_word words (c ∷ curr))
    added none e = rw e (inl refl, h.1)
    added (some p) e =
        let path = subst (λ (o : Option Node). SoundPath o) e h.0 in
        rw e (path, push_node-AllSound words.arguments (word_node (c ∷ curr)) h.1 (inl refl))

pub split_line-SoundWords :
    (line : List ℕ) (quoted : Bool) (curr : List ℕ) (words : Words)
    → SoundWords words
    → SoundWords (split_line line quoted curr words)
unfolding split_line
split_line-SoundWords [] quoted curr words h = flush-SoundWords words curr h
split_line-SoundWords (c ∷ line) quoted curr words h = elim (Bool-cases (c == b'"')) [
  | inl quote ↦ rw quote (split_line-SoundWords line (not quoted) curr words h)
  | inr other ↦ elim (Bool-cases (is_space c && not quoted)) [
    | inl space ↦
        rw (other, space)
          (split_line-SoundWords line quoted [] (flush_command_word words curr)
            (flush-SoundWords words curr h))
    | inr letter ↦ rw (other, letter) (split_line-SoundWords line quoted (curr ++ c ∷ []) words h)
  ]
]

-- characters that are neither a quote nor a blank
abbrev pub IsPlain : List ℕ → Type 0
IsPlain [] = Unit {0}
IsPlain (c ∷ s) = ((c == b'"') ≡ false) × (is_space c ≡ false) × IsPlain s

abbrev pub AllWords : List (List ℕ) → Type 0
AllWords [] = Unit {0}
AllWords (w ∷ ws) = (0 < length w) × IsPlain w × AllWords ws

-- the words of a line, a space between two of them
abbrev pub join_words : List ℕ → List (List ℕ) → List ℕ
join_words w [] = w
join_words w (v ∷ ws) = w ++ b' ' ∷ join_words v ws

abbrev pub word_nodes : List (List ℕ) → Nodes
word_nodes [] = no_nodes
word_nodes (w ∷ ws) = next_node (word_node w) (word_nodes ws)

abbrev push_words : Nodes → List (List ℕ) → Nodes
push_words ns [] = ns
push_words ns (w ∷ ws) = push_words (push_node ns (word_node w)) ws

push_words_lem :
    (n : Node) (ns : Nodes) (ws : List (List ℕ))
    → push_words (next_node n ns) ws ≡ next_node n (push_words ns ws)
unfolding push_node
push_words_lem n ns [] = refl
push_words_lem n ns (w ∷ ws) = push_words_lem n (push_node ns (word_node w)) ws

push_words-none : (ws : List (List ℕ)) → push_words no_nodes ws ≡ word_nodes ws
unfolding push_node
push_words-none [] = refl
push_words-none (w ∷ ws) =
    push_words_lem (word_node w) no_nodes ws ∙ ap (next_node (word_node w)) (push_words-none ws)

split_line-word :
    (w rest curr : List ℕ) (words : Words)
    → IsPlain w
    → split_line (w ++ rest) false curr words ≡ split_line rest false (curr ++ w) words
unfolding split_line
split_line-word [] rest curr words h =
    ap (λ (c : List ℕ). split_line rest false c words) (sym (append-nil curr))
split_line-word (c ∷ w) rest curr words h =
    rw (h.0, h.1)
      (split_line-word w rest (curr ++ c ∷ []) words h.2
        ∙ ap (λ (s : List ℕ). split_line rest false s words) (append_assoc curr (c ∷ []) w))

flush_word :
    (words : Words) (w : List ℕ) → 0 < length w → flush_command_word words w ≡ add_word words w
flush_word words [] h = absurd (omega arith)
flush_word words (c ∷ w) h = refl

abbrev add_words : Words → List ℕ → List (List ℕ) → Words
add_words words w [] = add_word words w
add_words words w (v ∷ ws) = add_words (add_word words w) v ws

split_line-join :
    (w : List ℕ) (ws : List (List ℕ)) (words : Words)
    → AllWords (w ∷ ws)
    → split_line (join_words w ws) false [] words ≡ add_words words w ws
unfolding split_line
split_line-join w [] words h =
    ap (λ (s : List ℕ). split_line s false [] words) (sym (append-nil w))
    ∙ split_line-word w [] [] words h.1
    ∙ flush_word words w h.0
split_line-join w (v ∷ ws) words h =
    split_line-word w (b' ' ∷ join_words v ws) [] words h.1
    ∙ ap (split_line (join_words v ws) false []) (flush_word words w h.0)
    ∙ split_line-join v ws (add_word words w) h.2

add_words-argument :
    (p : Node) (ns : Nodes) (w : List ℕ) (ws : List (List ℕ))
    → add_words (record { path = some p; arguments = ns }) w ws
      ≡ record { path = some p; arguments = push_words ns (w ∷ ws) }
add_words-argument p ns w [] = refl
add_words-argument p ns w (v ∷ ws) = add_words-argument p (push_node ns (word_node w)) v ws

-- Words, not empty and without quotes or blanks, that are joined by spaces are taken apart again:
-- the first is the path and the others, in their order, the arguments.
pub split_line-words :
    (w : List ℕ) (ws : List (List ℕ))
    → AllWords (w ∷ ws)
    → split_line (join_words w ws) false [] no_words
      ≡ record { path = some (word_node w); arguments = word_nodes ws }
split_line-words w ws h = split_line-join w ws no_words h ∙ arguments ws
  where
    arguments :
        (vs : List (List ℕ))
        → add_words no_words w vs ≡ record { path = some (word_node w); arguments = word_nodes vs }
    arguments [] = refl
    arguments (v ∷ vs) =
        add_words-argument (word_node w) no_nodes v vs
        ∙ ap (λ (ns : Nodes). record { path = some (word_node w); arguments = ns })
            (push_words-none (v ∷ vs))
