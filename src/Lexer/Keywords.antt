-- ===== src/Lexer/Keywords.antt =====
-- The keywords of lexer.h: the hashes that `lexer_match_identifier` tells them by.
use gsc.Base.{ℕ, List, [], ◌∷◌, ◌==◌, if◌then◌else◌}
use gsc.Token.{
  tk_for, tk_while, tk_if, tk_else, tk_do, tk_continue, tk_break, tk_return, tk_switch, tk_default,
  tk_case, tk_true, tk_false, tk_undefined, tk_null, tk_in, tk_foreach, tk_thread, tk_wait, tk_self,
  tk_waittillframeend,
}

abbrev pub idents : List (ℕ × ℕ)
idents =
    (0xacf38390, tk_for)
    ∷ (0xdc628ce, tk_while)
    ∷ (0x39386e06, tk_if)
    ∷ (0xbdbf5bf0, tk_else)
    ∷ (0x621cd814, tk_do)
    ∷ (0xb1727e44, tk_continue)
    ∷ (0xc9648178, tk_break)
    ∷ (0x85ee37bf, tk_return)
    ∷ (0x93e05f71, tk_switch)
    ∷ (0x933b5bde, tk_default)
    ∷ (0x9b2538b1, tk_case)
    ∷ (0x4db211e5, tk_true)
    ∷ (0xb069958, tk_false)
    ∷ (0x9b61ad43, tk_undefined)
    ∷ (0x77074ba4, tk_null)
    ∷ (0x41387a9e, tk_in)
    ∷ (0xb75f8759, tk_foreach)
    ∷ (0xa2026671, tk_thread)
    ∷ (0x892e4ca0, tk_wait)
    ∷ (0x645ba277, tk_self)
    ∷ (0x17257589, tk_waittillframeend)
    ∷ []

-- The type under the hash, or the type that the token has.
unfoldable pub match_hash : List (ℕ × ℕ) → ℕ → ℕ → ℕ
match_hash [] hash type = type
match_hash ((h, keyword) ∷ table) hash type =
    if h == hash then keyword else match_hash table hash type
