-- ===== src/Token/Names.antt =====
-- internal/lang/token.go: the `tokenNames` table, `TokenKind.String` and the `keywords` map.
use quark_lang.Base.{
  inr, inl, ◌⊎◌, List, [], ◌∷◌, ◌++◌, ◌≡◌, ◌↔◌, ◌<◌, refl, equal, equal_iff, false, Option, none,
  some, arith, Bytes, codes, get_elem?, All,
}
use quark_lang.Token.{
  Kind, iota, t_func, t_struct, t_impl, t_interface, t_return, t_if, t_else, t_while, t_for, t_true,
  t_false, t_log, t_null, t_try, t_catch, t_macro,
}

abbrev pub token_names : List Bytes
token_names =
    codes "end of file"
    ∷ codes "identifier"
    ∷ codes "int literal"
    ∷ codes "float literal"
    ∷ codes "string literal"
    ∷ codes "'fn'"
    ∷ codes "'struct'"
    ∷ codes "'impl'"
    ∷ codes "'interface'"
    ∷ codes "'out'"
    ∷ codes "'return'"
    ∷ codes "'if'"
    ∷ codes "'else'"
    ∷ codes "'while'"
    ∷ codes "'for'"
    ∷ codes "'in'"
    ∷ codes "'true'"
    ∷ codes "'false'"
    ∷ codes "'('"
    ∷ codes "')'"
    ∷ codes "'{'"
    ∷ codes "'}'"
    ∷ codes "'['"
    ∷ codes "']'"
    ∷ codes "';'"
    ∷ codes "','"
    ∷ codes "'.'"
    ∷ codes "':'"
    ∷ codes "'::'"
    ∷ codes "'@'"
    ∷ codes "'='"
    ∷ codes "'+'"
    ∷ codes "'-'"
    ∷ codes "'*'"
    ∷ codes "'/'"
    ∷ codes "'%'"
    ∷ codes "'!'"
    ∷ codes "'=='"
    ∷ codes "'!='"
    ∷ codes "'<'"
    ∷ codes "'<='"
    ∷ codes "'>'"
    ∷ codes "'>='"
    ∷ codes "'&&'"
    ∷ codes "'||'"
    ∷ codes "'log'"
    ∷ codes "'&'"
    ∷ codes "'<<'"
    ∷ codes "'>>'"
    ∷ codes "'null'"
    ∷ codes "'try'"
    ∷ codes "'catch'"
    ∷ codes "'#'"
    ∷ codes "'macro'"
    ∷ []

name_or : Option Bytes → Bytes
name_or none = codes "unknown token"
name_or (some s) = s

-- `TokenKind.String`: the entry at the constant's value.
pub kind_string : Kind → Bytes
unfolding name_or
kind_string k = name_or (get_elem? token_names (iota k))

abbrev pub keywords : List (Bytes × Kind)
keywords =
    (codes "fn", t_func)
    ∷ (codes "struct", t_struct)
    ∷ (codes "impl", t_impl)
    ∷ (codes "interface", t_interface)
    ∷ (codes "return", t_return)
    ∷ (codes "if", t_if)
    ∷ (codes "else", t_else)
    ∷ (codes "while", t_while)
    ∷ (codes "for", t_for)
    ∷ (codes "true", t_true)
    ∷ (codes "false", t_false)
    ∷ (codes "log", t_log)
    ∷ (codes "null", t_null)
    ∷ (codes "try", t_try)
    ∷ (codes "catch", t_catch)
    ∷ (codes "macro", t_macro)
    ∷ []

-- How a keyword is displayed if its name is put in quotes.
abbrev pub quoted : Bytes → Bytes
quoted s = b'\'' ∷ (s ++ b'\'' ∷ [])

-- The constants before that of 'return', and that of 'log'.
abbrev pub IsAligned : Kind → Type 0
IsAligned k = (iota k < 9) ⊎ (iota k ≡ iota t_log)

module _ (k : Kind) (s : Bytes) where
  named : kind_string k ≡ quoted s → IsAligned k → (kind_string k ≡ quoted s) ↔ IsAligned k
  named e h = (λ _. h, λ _. e)

  misnamed :
      equal (kind_string k) (quoted s) ≡ false
      → ¬ IsAligned k
      → (kind_string k ≡ quoted s) ↔ IsAligned k
  misnamed e h = (λ p. cc (e, (equal_iff _ _).1 p), λ l. absurd (h l))

-- A keyword's kind is displayed as that keyword in quotes exactly if the kind is `log` or stands
-- before `return` among the constants; every other keyword is displayed as something else.
pub kind_string-keywords : All (λ e. (kind_string e.1 ≡ quoted e.0) ↔ IsAligned e.1) keywords
unfolding kind_string equal
kind_string-keywords = (
  named t_func (codes "fn") refl (inl (omega arith)),
  (
    named t_struct (codes "struct") refl (inl (omega arith)),
    (
      named t_impl (codes "impl") refl (inl (omega arith)),
      (
        named t_interface (codes "interface") refl (inl (omega arith)),
        (
          misnamed t_return (codes "return") refl (ground arith),
          (
            misnamed t_if (codes "if") refl (ground arith),
            (
              misnamed t_else (codes "else") refl (ground arith),
              (
                misnamed t_while (codes "while") refl (ground arith),
                (
                  misnamed t_for (codes "for") refl (ground arith),
                  (
                    misnamed t_true (codes "true") refl (ground arith),
                    (
                      misnamed t_false (codes "false") refl (ground arith),
                      (
                        named t_log (codes "log") refl (inr refl),
                        (
                          misnamed t_null (codes "null") refl (ground arith),
                          (
                            misnamed t_try (codes "try") refl (ground arith),
                            (
                              misnamed t_catch (codes "catch") refl (ground arith),
                              (misnamed t_macro (codes "macro") refl (ground arith), tt),
                            ),
                          ),
                        ),
                      ),
                    ),
                  ),
                ),
              ),
            ),
          ),
        ),
      ),
    ),
  ),
)
