-- ===== src/Unit/RoundTrip.antt =====
-- The address that is read back from a unit is the one that was written.
use mathlib.Core.List.{append-nil, reverse, reverse-append, append_assoc}
use mathlib.Core.Path.{subst}
use dokkup.Common.{
  ◌≡◌, refl, ap, ◌∙◌, ◌≢◌, false, List, [], ◌∷◌, ◌++◌, arith, All, exists, contains, Text,
  number_key, text_key, Bool, true, not, none, some, Option, if◌then◌else◌,
}
use dokkup.Common.Strings.{is_space, codes, trim_space, has_prefix, trim_prefix}
use dokkup.Common.Strings.Trimming.{no_lead, trim_space_id}
use dokkup.Release.{split_on}
use dokkup.Release.Fetch.{fields}
use dokkup.Unit.{
  UnitConfig, unwords, unlines, default_listen, default_mode, or_default, value_flag, bare_flag,
  extra_flags, exec_words, head_lines, tail_lines, unit_file, line_says, first_line_says,
  listen_from_unit, listen_flag, or_else_says, said,
}

-- a word: not empty, and without white space
abbrev pub IsWord : Text → Type 0
IsWord w = (exists is_space w ≡ false) × (w ≢ [])

-- what the installer gives UnitFile: words, or nothing
abbrev pub IsWordy : UnitConfig → Type 0
IsWordy cfg =
    (exists is_space cfg.listen ≡ false)
    × (exists is_space cfg.mode ≡ false)
    × (exists is_space cfg.domain ≡ false)
    × (exists is_space cfg.acme_email ≡ false)
    × (exists is_space cfg.acme_directory ≡ false)

-- words are found again
fields-word : (w s : Text) → IsWord w → fields (w ++ 32 ∷ s) ≡ w ∷ fields s
fields-word [] s (h, k) = absurd (k refl)
fields-word (c ∷ []) s (h, k) = ground arith
fields-word (c ∷ d ∷ w) s (h, k) = ground (arith, fields-word (d ∷ w) s (ground arith, λ e. cc))

fields-last : (w : Text) → IsWord w → fields w ≡ w ∷ []
fields-last [] (h, k) = absurd (k refl)
fields-last (c ∷ []) (h, k) = ground arith
fields-last (c ∷ d ∷ w) (h, k) = ground (arith, fields-last (d ∷ w) (ground arith, λ e. cc))

fields-unwords : (ws : List Text) → All IsWord ws → fields (unwords ws) ≡ ws
fields-unwords [] h = refl
fields-unwords (w ∷ []) (h, _) = fields-last w h
fields-unwords (w ∷ v ∷ ws) (h, k) =
    fields-word w (unwords (v ∷ ws)) h ∙ ap (λ vs. w ∷ vs) (fields-unwords (v ∷ ws) k)

-- lines are found again
split_on-line : (l s : Text) → contains 10 l ≡ false → split_on 10 (l ++ 10 ∷ s) ≡ l ∷ split_on 10 s
split_on-line [] s h = refl
split_on-line (c ∷ l) s h = ground (arith, split_on-line l s (ground arith))

pub split_on-unlines :
    (ls : List Text)
    → All (λ l. contains 10 l ≡ false) ls
    → split_on 10 (unlines ls) ≡ ls ++ [] ∷ []
split_on-unlines [] h = refl
split_on-unlines (l ∷ ls) (h, k) =
    split_on-line l (unlines ls) h ∙ ap (λ vs. l ∷ vs) (split_on-unlines ls k)

-- the last byte is no white space
abbrev ends_well : Text → Bool
ends_well [] = false
ends_well (c ∷ []) = not (is_space c)
ends_well (c ∷ d ∷ s) = ends_well (d ∷ s)

no_lead-reverse : (s t : Text) → ends_well s ≡ true → no_lead (reverse s ++ t) ≡ true
no_lead-reverse [] t h = absurd cc
no_lead-reverse (c ∷ []) t h = h
no_lead-reverse (c ∷ d ∷ s) t h =
    rw (reverse-append (c ∷ []) (d ∷ s), append_assoc (reverse (d ∷ s)) (c ∷ []) t)
      (no_lead-reverse (d ∷ s) (c ∷ t) h)

ends_well-IsWord : (w : Text) → IsWord w → ends_well w ≡ true
ends_well-IsWord [] (h, k) = absurd (k refl)
ends_well-IsWord (c ∷ []) (h, k) = ground arith
ends_well-IsWord (c ∷ d ∷ w) (h, k) = ends_well-IsWord (d ∷ w) (ground arith, λ e. cc)

ends_well-append : (w s : Text) → ends_well s ≡ true → ends_well (w ++ s) ≡ true
ends_well-append [] s h = h
ends_well-append (c ∷ []) [] h = absurd cc
ends_well-append (c ∷ []) (d ∷ s) h = h
ends_well-append (c ∷ d ∷ w) s h = ends_well-append (d ∷ w) s h

ends_well-unwords :
    (w : Text) (ws : List Text) → All IsWord (w ∷ ws) → ends_well (unwords (w ∷ ws)) ≡ true
ends_well-unwords w [] (h, _) = ends_well-IsWord w h
ends_well-unwords w (v ∷ ws) (h, k) =
    ends_well-append w (32 ∷ unwords (v ∷ ws))
      (ends_well-append (32 ∷ []) (unwords (v ∷ ws)) (ends_well-unwords v ws k))

All-append {ℓ κ} :
    {A : Type ℓ} (P : A → Type κ) (xs ys : List A) → All P xs → All P ys → All P (xs ++ ys)
All-append P [] ys h k = k
All-append P (x ∷ xs) ys (h, hs) k = (h, All-append P xs ys hs k)

value_flag-words :
    (flag v : Text) → IsWord flag → exists is_space v ≡ false → All IsWord (value_flag flag v)
value_flag-words flag [] h k = tt
value_flag-words flag (c ∷ s) h k = (h, ((k, λ e. cc), tt))

bare_flag-words : (flag : Text) (b : Bool) → IsWord flag → All IsWord (bare_flag flag b)
bare_flag-words flag true h = (h, tt)
bare_flag-words flag false h = tt

or_default-IsWord : (w d : Text) → exists is_space w ≡ false → IsWord d → IsWord (or_default w d)
or_default-IsWord [] d h k = k
or_default-IsWord (c ∷ w) d h k = (h, λ e. cc)

extra_flags-words : (cfg : UnitConfig) → IsWordy cfg → All IsWord (extra_flags cfg)
unfolding extra_flags
extra_flags-words cfg (_, _, domain, email, directory) =
    All-append IsWord (value_flag (codes "--domain") cfg.domain) _
      (value_flag-words (codes "--domain") cfg.domain (refl, λ e. cc) domain)
      (All-append IsWord (bare_flag (codes "--manage-certificate") cfg.manage_certificate) _
        (bare_flag-words (codes "--manage-certificate") cfg.manage_certificate (refl, λ e. cc))
        (All-append IsWord (value_flag (codes "--acme-email") cfg.acme_email) _
          (value_flag-words (codes "--acme-email") cfg.acme_email (refl, λ e. cc) email)
          (All-append IsWord (value_flag (codes "--acme-directory") cfg.acme_directory) _
            (value_flag-words (codes "--acme-directory") cfg.acme_directory (refl, λ e. cc)
              directory)
            (bare_flag-words (codes "--plain-http") cfg.plain_http (refl, λ e. cc)))))

exec_words-words : (cfg : UnitConfig) → IsWordy cfg → All IsWord (exec_words cfg)
unfolding exec_words
exec_words-words cfg (listen, mode, domain, email, directory) = (
  (refl, λ e. cc),
  (
    (refl, λ e. cc),
    (
      (refl, λ e. cc),
      (
        or_default-IsWord cfg.listen default_listen listen (refl, λ e. cc),
        (
          (refl, λ e. cc),
          (
            or_default-IsWord cfg.mode default_mode mode (refl, λ e. cc),
            extra_flags-words cfg (listen, mode, domain, email, directory),
          ),
        ),
      ),
    ),
  ),
)

-- a line of the unit that says nothing of the address
abbrev Quiet : Text → Type 0
Quiet line = line_says line ≡ none

first_line_says-Quiet :
    (ls rest : List Text) → All Quiet ls → first_line_says (ls ++ rest) ≡ first_line_says rest
first_line_says-Quiet [] rest h = refl
first_line_says-Quiet (l ∷ ls) rest (h, k) =
    ap (λ o. or_else_says o (first_line_says (ls ++ rest))) h ∙ first_line_says-Quiet ls rest k

head_lines-Quiet : All Quiet head_lines
unfolding head_lines line_says trim_space
head_lines-Quiet = (
  refl,
  (refl, (refl, (refl, (refl, (refl, (refl, (refl, (refl, (refl, (refl, (refl, tt))))))))))),
)

head_lines-whole : All (λ l. contains 10 l ≡ false) head_lines
unfolding head_lines
head_lines-whole = (
  refl,
  (refl, (refl, (refl, (refl, (refl, (refl, (refl, (refl, (refl, (refl, (refl, tt))))))))))),
)

tail_lines-whole : All (λ l. contains 10 l ≡ false) tail_lines
unfolding tail_lines
tail_lines-whole = (
  refl,
  (
    refl,
    (
      refl,
      (
        refl,
        (refl, (refl, (refl, (refl, (refl, (refl, (refl, (refl, (refl, (refl, (refl, tt))))))))))),
      ),
    ),
  ),
)

word-whole : (w : Text) → exists is_space w ≡ false → contains 10 w ≡ false
word-whole [] h = refl
word-whole (c ∷ w) h = ground (arith, word-whole w (ground arith))

line-whole :
    (w s : Text) → contains 10 w ≡ false → contains 10 s ≡ false → contains 10 (w ++ 32 ∷ s) ≡ false
line-whole [] s h k = k
line-whole (c ∷ w) s h k = ground (arith, line-whole w s (ground arith) k)

unwords-whole : (ws : List Text) → All IsWord ws → contains 10 (unwords ws) ≡ false
unwords-whole [] h = refl
unwords-whole (w ∷ []) (h, _) = word-whole w h.0
unwords-whole (w ∷ v ∷ ws) (h, k) =
    line-whole w (unwords (v ∷ ws)) (word-whole w h.0) (unwords-whole (v ∷ ws) k)

-- what a line says once it is trimmed
abbrev flags_say : Text → Option (Option Text)
flags_say bare =
    if has_prefix bare (codes "ExecStart=")
    then listen_flag (fields (trim_prefix bare (codes "ExecStart=")))
    else none

-- the words of the command, after its path
abbrev argument_words : UnitConfig → List Text
argument_words cfg =
    codes "serve"
    ∷ codes "--listen"
    ∷ or_default cfg.listen default_listen
    ∷ codes "--mode"
    ∷ or_default cfg.mode default_mode
    ∷ extra_flags cfg

exec_line_says :
    (cfg : UnitConfig)
    → IsWordy cfg
    → line_says (unwords (exec_words cfg)) ≡ some (some (or_default cfg.listen default_listen))
unfolding line_says exec_words
exec_line_says cfg wordy =
    let line = unwords (exec_words cfg) in
    let words = exec_words-words cfg wordy in
    let trimmed : trim_space line ≡ line = trim_space_id line refl (
      subst (λ s. no_lead s ≡ true) (append-nil (reverse line))
        (no_lead-reverse line [] (
          ends_well-unwords (codes "ExecStart=/usr/local/bin/dokkup") (argument_words cfg)
            words))) in
    ap flags_say trimmed
    ∙ ap listen_flag (
        fields-unwords (codes "/usr/local/bin/dokkup" ∷ argument_words cfg)
          ((refl, λ e. cc), words.1))

-- The address that ListenFromUnit reads back from a unit that UnitFile wrote is the one it was given, or
-- the default where that was empty, so long as what it was given holds no white space.
pub listen_from_unit-unit_file :
    (cfg : UnitConfig)
    → IsWordy cfg
    → listen_from_unit (unit_file cfg) ≡ some (or_default cfg.listen default_listen)
unfolding listen_from_unit unit_file
listen_from_unit-unit_file cfg wordy =
    let line = unwords (exec_words cfg) in
    let whole =
      All-append (λ l. contains 10 l ≡ false) head_lines (line ∷ tail_lines) head_lines-whole
        (unwords-whole (exec_words cfg) (exec_words-words cfg wordy), tail_lines-whole) in
    let rest = tail_lines ++ [] ∷ [] in
    ap said (
      ap first_line_says (
        split_on-unlines (head_lines ++ line ∷ tail_lines) whole
        ∙ append_assoc head_lines (line ∷ tail_lines) ([] ∷ []))
      ∙ (first_line_says-Quiet head_lines (line ∷ rest) head_lines-Quiet
          ∙ ap (λ o. or_else_says o (first_line_says rest)) (exec_line_says cfg wordy)))
