-- ===== src/Mosh/Quoting.antt =====
-- How a POSIX shell reads the words of the command for the remote host.
use quantumcat.Base.{
  ℕ, zero, suc, Bytes, ascii, Bool, Bool-cases, false, ◌||◌, ◌==◌, if◌then◌else◌, ◌≡◌, inl, inr,
  refl, sym, ap, ◌∙◌, Option, none, some, List, [], ◌∷◌, ◌++◌, append-nil, append_assoc, length,
  arith,
}
use quantumcat.Config.{is_alnum}
use quantumcat.Mosh.{escape, shell_word, quote_words, server_words, discovery, mosh_server_command}

-- Between words, in a word, and in a part of one in single or double quotes.
pub data Mode : Type 0 where
  blank : Mode
  word : Mode
  single : Mode
  double : Mode

-- What a byte does: nothing, it belongs to the word, or it ends the word.
pub data Effect : Type 0 where
  skips : Effect
  belongs : Effect
  ends : Effect

abbrev plain : ℕ → Bool
plain b = is_alnum b || ((b == 45) || ((b == 46) || (b == 47)))

-- A quote, a letter, a digit or a mark without a meaning; other bytes outside of quotes mean something.
unfoldable pub unquoted : ℕ → Option (Mode × Effect)
unquoted b =
    if b == 39
    then some (single, skips)
    else if b == 34
    then some (double, skips)
    else if plain b
    then some (word, belongs)
    else none

-- In double quotes a dollar sign, a backquote and a backslash have a meaning.
unfoldable pub next : Mode → ℕ → Option (Mode × Effect)
next blank b = if b == 32 then some (blank, skips) else unquoted b
next word b = if b == 32 then some (blank, ends) else unquoted b
next single b = if b == 39 then some (word, skips) else some (single, belongs)
next double b =
    if b == 34
    then some (word, skips)
    else if (b == 36) || ((b == 96) || (b == 92))
    then none
    else some (double, belongs)

abbrev extend : ℕ → Option (List Bytes) → Option (List Bytes)
extend b none = none
extend b (some []) = none
extend b (some (w ∷ ws)) = some ((b ∷ w) ∷ ws)

abbrev pub apply : Effect → ℕ → Option (List Bytes) → Option (List Bytes)
apply skips b words = words
apply belongs b words = extend b words
apply ends b none = none
apply ends b (some ws) = some ([] ∷ ws)

unfoldable pub at_end : Mode → Option (List Bytes)
at_end blank = some []
at_end word = some ([] ∷ [])
at_end single = none
at_end double = none

-- In a word, the first of the words is what is left of it.
unfoldable pub scan : Mode → Bytes → Option (List Bytes)
scan m [] = at_end m
scan m (b ∷ rest) = elim (next m b) [ none ↦ none | some (m', e) ↦ apply e b (scan m' rest) ]

-- The words of a command line, `none` where the shell would do more than to split it.
unfoldable pub shell_words : Bytes → Option (List Bytes)
shell_words s = scan blank s

abbrev prepend : Bytes → Option (List Bytes) → Option (List Bytes)
prepend [] words = words
prepend (b ∷ s) words = extend b (prepend s words)

prepend-some : (s w : Bytes) (ws : List Bytes) → prepend s (some (w ∷ ws)) ≡ some ((s ++ w) ∷ ws)
prepend-some [] w ws = refl
prepend-some (b ∷ s) w ws = ap (extend b) (prepend-some s w ws)

scan-next :
    (m n : Mode) (e : Effect) (b : ℕ) (rest : Bytes)
    → next m b ≡ some (n, e)
    → scan m (b ∷ rest) ≡ apply e b (scan n rest)
unfolding scan
scan-next m n e b rest h = rw (scan, h) refl

next_single : (b : ℕ) → (b == 39) ≡ false → next single b ≡ some (single, belongs)
unfolding next
next_single b f = rw (f) refl

scan-escape : (s rest : Bytes) → scan single (escape s ++ (39 ∷ rest)) ≡ prepend s (scan word rest)
unfolding scan next escape unquoted
scan-escape [] rest = refl
scan-escape (b ∷ s) rest = elim (Bool-cases (b == 39)) [
  | inl t ↦ let here : b ≡ 39 = ground arith in rw (here) (ap (extend 39) (scan-escape s rest))
  | inr f ↦ rw (f) (
      scan-next single single belongs b (escape s ++ (39 ∷ rest)) (next_single b f)
      ∙ ap (extend b) (scan-escape s rest))
]

opens_quote : (rest : Bytes) → scan blank (39 ∷ rest) ≡ scan single rest
unfolding scan next unquoted
opens_quote rest = refl

scan-shell_word : (s rest : Bytes) → scan blank (shell_word s ++ rest) ≡ prepend s (scan word rest)
unfolding shell_word
scan-shell_word s rest =
    opens_quote ((escape s ++ (39 ∷ [])) ++ rest)
    ∙ (ap (scan single) (append_assoc (escape s) (39 ∷ []) rest) ∙ scan-escape s rest)

-- A word at the end, and one before a space.
last_word : (s : Bytes) → scan blank (shell_word s) ≡ some (s ∷ [])
unfolding scan at_end
last_word s =
    ap (scan blank) (sym (append-nil (shell_word s)))
    ∙ (scan-shell_word s [] ∙ (prepend-some s [] [] ∙ ap (λ w. some (w ∷ [])) (append-nil s)))

space_ends : (rest : Bytes) → scan word (32 ∷ rest) ≡ apply ends 32 (scan blank rest)
unfolding scan next
space_ends rest = refl

next_word :
    (s rest : Bytes) (ws : List Bytes)
    → scan blank rest ≡ some ws
    → scan blank (shell_word s ++ (32 ∷ rest)) ≡ some (s ∷ ws)
next_word s rest ws h =
    let ended : scan word (32 ∷ rest) ≡ some ([] ∷ ws) = space_ends rest ∙ ap (apply ends 32) h in
    scan-shell_word s (32 ∷ rest)
    ∙ (ap (prepend s) ended ∙ (prepend-some s [] ws ∙ ap (λ w. some (w ∷ ws)) (append-nil s)))

scan-quote_words : (w : Bytes) (ws : List Bytes) → scan blank (quote_words (w ∷ ws)) ≡ some (w ∷ ws)
unfolding quote_words
scan-quote_words w [] = last_word w
scan-quote_words w (v ∷ ws) = next_word w _ (v ∷ ws) (scan-quote_words v ws)

-- The words of mosh-server: no user's command has no dashes, and port zero is not given.
abbrev pub command_words : List Bytes → List Bytes
command_words [] = []
command_words (c ∷ command) = ascii "--" ∷ c ∷ command

abbrev pub port_words : (ℕ → Bytes) → ℕ → List Bytes → List Bytes
port_words itoa zero rest = rest
port_words itoa (suc n) rest = ascii "-p" ∷ itoa (suc n) ∷ rest

abbrev pub server_args : (ℕ → Bytes) → ℕ → List Bytes → List Bytes
server_args itoa port command =
    ascii "new"
    ∷ ascii "-i"
    ∷ ascii "127.0.0.1"
    ∷ port_words itoa port
        (ascii "-c" ∷ ascii "256" ∷ ascii "-l" ∷ ascii "LANG=en_US.UTF-8" ∷ command_words command)

-- The script replaces itself by this program with these arguments somewhere.
abbrev pub Execs : Bytes → Bytes → Bytes → Type 0
Execs script program args =
    (before : Bytes) × ((after : Bytes) × (script
        ≡ before ++ (ascii "exec " ++ (program ++ (32 ∷ (args ++ (59 ∷ after)))))))

-- What the remote shell gets to run: the given server with the arguments, or sh with a script that has
-- them for each of the places of a server.
abbrev pub Starts : (ℕ → Bytes) → Bytes → ℕ → List Bytes → List Bytes → Type 0
Starts itoa [] port command words =
    (script : Bytes) × ((args : Bytes) × ((words ≡ ascii "sh" ∷ ascii "-c" ∷ script ∷ [])
        × ((shell_words args ≡ some (server_args itoa port command))
            × (Execs script (ascii "mosh-server") args
                × (Execs script (ascii "/opt/homebrew/bin/mosh-server") args
                    × Execs script (ascii "/usr/local/bin/mosh-server") args)))))
Starts itoa (b ∷ server) port command words = words ≡ (b ∷ server) ∷ server_args itoa port command

server_words-server_args :
    (itoa : ℕ → Bytes) (port : ℕ) (command : List Bytes)
    → server_words itoa port command ≡ server_args itoa port command
unfolding server_words
server_words-server_args itoa zero [] = refl
server_words-server_args itoa zero (c ∷ command) =
    let some_words : (length (c ∷ command) == 0) ≡ false = ground arith in rw (some_words) refl
server_words-server_args itoa (suc n) [] =
    let given : (suc n == 0) ≡ false = ground arith in rw (given) refl
server_words-server_args itoa (suc n) (c ∷ command) =
    let given : (suc n == 0) ≡ false = ground arith in
    let some_words : (length (c ∷ command) == 0) ≡ false = ground arith in
    rw (given, some_words) refl

scan-server_words :
    (itoa : ℕ → Bytes) (port : ℕ) (command : List Bytes)
    → scan blank (quote_words (server_words itoa port command))
      ≡ some (server_args itoa port command)
scan-server_words itoa port command =
    let same = server_words-server_args itoa port command in
    ap (λ ws. scan blank (quote_words ws)) same ∙ scan-quote_words _ _

discovery-Execs :
    (args : Bytes)
    → Execs (discovery args) (ascii "mosh-server") args
      × (Execs (discovery args) (ascii "/opt/homebrew/bin/mosh-server") args
          × Execs (discovery args) (ascii "/usr/local/bin/mosh-server") args)
unfolding discovery
discovery-Execs args =
    let start = ascii "if command -v mosh-server >/dev/null 2>&1; then " in
    let first = ascii "exec mosh-server " in
    let brew = ascii "; elif [ -x /opt/homebrew/bin/mosh-server ]; then " in
    let second = ascii "exec /opt/homebrew/bin/mosh-server " in
    let local = ascii "; elif [ -x /usr/local/bin/mosh-server ]; then " in
    let third = ascii "exec /usr/local/bin/mosh-server " in
    let found : Bytes = start ++ (first ++ args) in
    let none_found =
      ascii
        " else printf '%s\\n' 'mosh-server not found; install Mosh or use --mosh-server PATH' >&2; exit 127; fi" in
    let rest = third ++ (args ++ (59 ∷ none_found)) in
    let middle = brew ++ (second ++ (args ++ local)) in
    let after_second = ascii " elif [ -x /usr/local/bin/mosh-server ]; then " ++ rest in
    (
      (
        start,
        (
          ascii " elif [ -x /opt/homebrew/bin/mosh-server ]; then "
              ++ (second ++ (args ++ (59 ∷ after_second))),
          refl,
        ),
      ),
      (
        (
          found ++ brew,
          (
            after_second,
            ap (λ l. start ++ (first ++ l))
                (sym (append_assoc args brew (second ++ (args ++ (59 ∷ after_second))))),
          ),
        ),
        (
          found ++ middle,
          (
            none_found,
            ap (λ l. start ++ (first ++ (args ++ (brew ++ (second ++ l)))))
                  (sym (append_assoc args local rest))
                ∙ ap (λ l. start ++ (first ++ l)) (sym (append_assoc args middle rest)),
          ),
        ),
      ),
    )

starts_shell :
    (rest : Bytes) (ws : List Bytes)
    → scan blank rest ≡ some ws
    → scan blank (ascii "sh -c " ++ rest) ≡ some (ascii "sh" ∷ ascii "-c" ∷ ws)
unfolding scan next unquoted is_alnum
starts_shell rest ws h = rw (h) refl

-- A POSIX shell splits the command for the remote host, whatever bytes it is made of, into the given path
-- of the server and its arguments, which end with two dashes and the user's command where there is one.
-- Without a path it splits it into sh, -c and a script that executes mosh-server, from the search path or
-- one of two directories, in each case with a text that splits into the same arguments.
pub shell_words-mosh_server_command :
    (itoa : ℕ → Bytes) (server : Bytes) (port : ℕ) (command : List Bytes)
    → (words : List Bytes) × ((shell_words (mosh_server_command itoa server port command)
          ≡ some words)
        × Starts itoa server port command words)
unfolding shell_words mosh_server_command
shell_words-mosh_server_command itoa [] port command =
    let args = quote_words (server_words itoa port command) in
    (
      ascii "sh" ∷ ascii "-c" ∷ discovery args ∷ [],
      (
        starts_shell _ _ (last_word _),
        (
          discovery args,
          (args, (refl, (scan-server_words itoa port command, discovery-Execs args))),
        ),
      ),
    )
shell_words-mosh_server_command itoa (b ∷ server) port command = (
  (b ∷ server) ∷ server_args itoa port command,
  (
    let long : (length (b ∷ server) == 0) ≡ false = ground arith in
        rw (long) (next_word (b ∷ server) _ _ (scan-server_words itoa port command)),
    refl,
  ),
)
