-- ===== src/Sessions/Flags.antt =====
-- The settings of sessions that a flag lists are read back.
use atp.Common.{
  ℕ, zero, suc, ◌+◌, ◌/◌, ◌%◌, ◌^◌, ◌<◌, ◌≡◌, refl, ap, ◌∙◌, ◌⊎◌, Bool, true, false, ◌&&◌, not,
  Option, some, List, [], ◌∷◌, ◌++◌, arith, inl, inr, All, ◌==◌,
}
use atp.Common.Int.{ℤ, pos, size_mod}
use atp.Common.Split.{split_from, free, free-append, split_from-append, split_from-free}
use atp.Common.Text.{Str, decimal, digits}
use atp.Sessions.{
  getline, is_space, skip_spaces, until_space, read_word, SessionSetting, parse_session_setting,
  parse_all, parse_session_settings,
}

-- No white space occurs.
abbrev pub no_space : Str → Bool
no_space [] = true
no_space (c ∷ s) = not (is_space c) && no_space s

-- {session_id}={host}:{port}@{reactor}
abbrev pub written : SessionSetting → Str
written s =
    decimal s.session_id ++ (b'=' ∷ ((s.host ++ (b':' ∷ decimal s.port)) ++ (b'@' ∷ s.reactor)))

abbrev pub all_written : SessionSetting → List SessionSetting → Str
all_written s [] = written s
all_written s (t ∷ settings) = written s ++ (b',' ∷ all_written t settings)

-- The host has no character that ends it, the reactor no white space and no comma, and the port is an int.
pub record IsPlain (s : SessionSetting) : Type 0 where
  pub host_end : free b'@' s.host ≡ true
  pub host_colon : free b':' s.host ≡ true
  pub host_comma : free b',' s.host ≡ true
  pub reactor_word : no_space s.reactor ≡ true
  pub reactor_comma : free b',' s.reactor ≡ true
  pub small_id : s.session_id < 2 ^ 32
  pub small_port : s.port < 2 ^ 31

-- The casts of boost read the digits of a number that fits.
abbrev pub CastsUnsigned : (Str → Option ℕ) → Type 0
CastsUnsigned cast = (n : ℕ) → n < 2 ^ 32 → cast (decimal n) ≡ some n

abbrev pub CastsInt : (Str → Option ℤ) → Type 0
CastsInt cast = (n : ℕ) → n < 2 ^ 31 → cast (decimal n) ≡ some (pos n)

-- Digits do not delimit.
pub free-digits :
    (delim fuel n : ℕ) → (delim < 48) ⊎ (57 < delim) → free delim (digits fuel n) ≡ true
unfolding digits
free-digits delim zero n h = refl
free-digits delim (suc fuel) n h = ground (
  arith,
  free-digits delim fuel (n / 10) h,
  free-append delim (digits fuel (n / 10)) ((b'0' + n % 10) ∷ []),
)

getline-free :
    (delim : ℕ) (s t : Str) → free delim s ≡ true → getline delim (s ++ (delim ∷ t)) ≡ (s, t)
unfolding getline
getline-free delim [] t h = let e : (delim == delim) ≡ true = ground arith in rw e refl
getline-free delim (c ∷ s) t h =
    let e : (c == delim) ≡ false = ground arith in
    rw (getline-free delim s t (ground arith), e) refl

until_space-no_space : (s : Str) → no_space s ≡ true → until_space s ≡ s
unfolding until_space
until_space-no_space [] h = refl
until_space-no_space (c ∷ s) h =
    let e : is_space c ≡ false = ground arith in
    rw e (ap (λ r. c ∷ r) (until_space-no_space s (ground arith)))

read_word-no_space : (s : Str) → no_space s ≡ true → read_word s ≡ s
unfolding read_word skip_spaces
read_word-no_space [] h = unfold until_space in refl
read_word-no_space (c ∷ s) h =
    let e : is_space c ≡ false = ground arith in rw e (until_space-no_space (c ∷ s) h)

split-address :
    (host : Str) (port : ℕ)
    → free b':' host ≡ true
    → split_from b':' [] (host ++ (b':' ∷ decimal port)) ≡ host ∷ decimal port ∷ []
split-address host port h =
    split_from-append b':' [] host (decimal port) h
    ∙ ap (λ l. host ∷ l)
        (split_from-free b':' [] (decimal port) (free-digits b':' 20 port (inr (omega arith))))

module _ (cast_unsigned : Str → Option ℕ) (cast_int : Str → Option ℤ)
    (casts_unsigned : CastsUnsigned cast_unsigned) (casts_int : CastsInt cast_int) where
  parse_session_setting-written :
      (s : SessionSetting)
      → IsPlain s
      → parse_session_setting cast_unsigned cast_int (written s) ≡ some s
  unfolding parse_session_setting
  parse_session_setting-written s v =
      let address = s.host ++ (b':' ∷ decimal s.port) in
      let first : getline b'=' (written s) ≡ (decimal s.session_id, address ++ (b'@' ∷ s.reactor)) =
        getline-free b'=' (decimal s.session_id) (address ++ (b'@' ∷ s.reactor))
          (free-digits b'=' 20 s.session_id (inr (omega arith))) in
      let no_end : free b'@' address ≡ true =
        free-append b'@' s.host (b':' ∷ decimal s.port)
        ∙ rw (v.host_end, free-digits b'@' 20 s.port (inr (omega arith))) refl in
      let small : s.port % size_mod % 2 ^ 32 ≡ s.port = omega arith in
      rw
        (
          first,
          casts_unsigned s.session_id v.small_id,
          getline-free b'@' address s.reactor no_end,
          split-address s.host s.port v.host_colon,
          casts_int s.port v.small_port,
          small,
          read_word-no_space s.reactor v.reactor_word,
        )
        refl

  comma-written : (s : SessionSetting) → IsPlain s → free b',' (written s) ≡ true
  comma-written s v =
      free-append b',' (decimal s.session_id)
        (b'=' ∷ ((s.host ++ (b':' ∷ decimal s.port)) ++ (b'@' ∷ s.reactor)))
      ∙ rw
          (
            free-digits b',' 20 s.session_id (inl (omega arith)),
            free-append b',' (s.host ++ (b':' ∷ decimal s.port)) (b'@' ∷ s.reactor),
            free-append b',' s.host (b':' ∷ decimal s.port),
            v.host_comma,
            free-digits b',' 20 s.port (inl (omega arith)),
            v.reactor_comma,
          )
          refl

  -- The settings of plain sessions are read back, in order, from the flag that lists them with commas.
  pub parse_session_settings-written :
      (s : SessionSetting) (settings : List SessionSetting)
      → All IsPlain (s ∷ settings)
      → parse_session_settings cast_unsigned cast_int (all_written s settings) ≡ some (s ∷ settings)
  unfolding parse_session_settings parse_all
  parse_session_settings-written s [] (v, _) =
      rw
        (split_from-free b',' [] (written s) (comma-written s v), parse_session_setting-written s v)
        refl
  parse_session_settings-written s (t ∷ settings) (v, vs) =
      rw
        (
          split_from-append b',' [] (written s) (all_written t settings) (comma-written s v),
          parse_all,
          parse_session_setting-written s v,
          parse_session_settings-written t settings vs,
        )
        refl
