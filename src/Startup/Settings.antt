-- ===== src/Startup/Settings.antt =====
-- The settings and the texts of src/startup_coordination.rs.
use postgres_mcp.Prelude.{
  ℕ, zero, suc, ◌^◌, ◌≤◌, ◌<◌, ◌≡◌, refl, sym, ap, subst, false, Option, none, some, List, [], ◌∷◌,
  if_split, leb, nat_eq, Text, text_Eq, length, length-take, take, trim, is_empty, parse_unsigned,
  parse_unsigned-lt, leb→le, arith,
}
use postgres_mcp.Errors.{StartupRole}
use postgres_mcp.Startup.{
  Result, ok, err, StartupError, StartupCoordinationConfig, StartupCoordinationMode,
  ParsedEnvOptions, Environment, from_parsed_options, from_env, parse_setting, parse_mode_setting,
  and_then, unwrap_or, default_mode, default_lease_key, clipped_error_text, max_recorded_error_len,
}

-- The lease has a name, the heartbeat comes sooner than the lease ends, and no duration is zero
-- or beyond 64 bits.
pub record IsUsable (c : StartupCoordinationConfig) : Type 0 where
  pub named : is_empty c.lease_key ≡ false
  pub beats : 1 ≤ c.heartbeat_interval
  pub in_time : c.heartbeat_interval < c.lease_ttl
  pub waits : 1 ≤ c.acquire_timeout
  pub ttl_fits : c.lease_ttl < 2 ^ 64
  pub timeout_fits : c.acquire_timeout < 2 ^ 64

abbrev IfOk : {A : Type 0} → (A → Type 0) → Result A → Type 0
IfOk P (ok a) = P a
IfOk P (err e) = Unit

abbrev Fits : Option ℕ → Type 0
Fits none = Unit
Fits (some n) = n < 2 ^ 64

Fits-unwrap_or : (d : ℕ) (o : Option ℕ) → d < 2 ^ 64 → Fits o → unwrap_or d o < 2 ^ 64
Fits-unwrap_or d none h f = h
Fits-unwrap_or d (some n) h f = f

from_parsed_options-IsUsable :
    (options : ParsedEnvOptions) (role : StartupRole)
    → Fits options.lease_ttl_sec
    → Fits options.acquire_timeout_sec
    → IfOk IsUsable (from_parsed_options options role)
unfolding from_parsed_options
from_parsed_options-IsUsable options role f g =
    if_split (IfOk IsUsable) (is_empty key) (λ e. tt)
      (λ named.
        if_split (IfOk IsUsable) (nat_eq ttl 0) (λ e. tt)
          (λ some_ttl.
            if_split (IfOk IsUsable) (nat_eq beat 0) (λ e. tt)
              (λ some_beat.
                if_split (IfOk IsUsable) (leb ttl beat) (λ e. tt)
                  (λ less.
                    if_split (IfOk IsUsable) (nat_eq wait 0) (λ e. tt)
                      (λ some_wait. accepted named some_beat less some_wait)))))
  where
    key : Text
    key = trim (unwrap_or default_lease_key options.lease_key)

    ttl : ℕ
    ttl = unwrap_or 30 options.lease_ttl_sec

    beat : ℕ
    beat = unwrap_or 5 options.heartbeat_sec

    wait : ℕ
    wait = unwrap_or 60 options.acquire_timeout_sec

    accepted :
        is_empty key ≡ false
        → nat_eq beat 0 ≡ false
        → leb ttl beat ≡ false
        → nat_eq wait 0 ≡ false
        → IsUsable (record {
          mode = unwrap_or (default_mode role) options.mode;
          lease_key = key;
          lease_ttl = ttl;
          heartbeat_interval = beat;
          acquire_timeout = wait;
        })
    accepted named some_beat less some_wait = record {
      named = named;
      beats = ground (arith, some_beat);
      in_time = ground (arith, less);
      waits = ground (arith, some_wait);
      ttl_fits = Fits-unwrap_or 30 options.lease_ttl_sec (omega arith) f;
      timeout_fits = Fits-unwrap_or 60 options.acquire_timeout_sec (omega arith) g;
    }

and_then-IfOk :
    {A B : Type 0} (P : A → Type 0) (Q : B → Type 0) (r : Result A) (f : A → Result B)
    → IfOk P r
    → ((a : A) → P a → IfOk Q (f a))
    → IfOk Q (and_then r f)
and_then-IfOk P Q (ok a) f p h = h a p
and_then-IfOk P Q (err e) f p h = tt

parse_setting-Fits : (raw : Option Text) → IfOk Fits (parse_setting raw)
unfolding parse_setting
parse_setting-Fits none = tt
parse_setting-Fits (some raw) = by_parse (parse_unsigned (2 ^ 64) (trim raw)) refl
  where
    by_parse :
        (o : Option ℕ)
        → parse_unsigned (2 ^ 64) (trim raw) ≡ o
        → IfOk Fits (elim o [ none ↦ err StartupError.invalid_setting | some n ↦ ok (some n) ])
    by_parse none e = tt
    by_parse (some n) e = parse_unsigned-lt (2 ^ 64) (trim raw) n (omega arith) e

IfOk-Unit : {A : Type 0} (r : Result A) → IfOk (λ a. Unit {0}) r
IfOk-Unit (ok a) = tt
IfOk-Unit (err e) = tt

-- A configuration that is read from the environment names its lease, beats before the lease ends,
-- and has no duration of zero or beyond 64 bits.
pub startup_from_env-IsUsable :
    (env : Environment) (role : StartupRole) (c : StartupCoordinationConfig)
    → from_env env role ≡ ok c
    → IsUsable c
unfolding from_env
startup_from_env-IsUsable env role c e = subst (IfOk IsUsable) e (
    and_then-IfOk (λ m. Unit {0}) IsUsable (parse_mode_setting env.mode) read_ttl
      (IfOk-Unit (parse_mode_setting env.mode))
      (λ mode _.
        and_then-IfOk Fits IsUsable (parse_setting env.lease_ttl_sec) (read_beat mode)
          (parse_setting-Fits env.lease_ttl_sec)
          (λ ttl f.
            and_then-IfOk Fits IsUsable (parse_setting env.heartbeat_sec) (read_timeout mode ttl)
              (parse_setting-Fits env.heartbeat_sec)
              (λ beat _.
                and_then-IfOk Fits IsUsable (parse_setting env.acquire_timeout_sec)
                  (λ timeout. from_parsed_options (given mode ttl beat timeout) role)
                  (parse_setting-Fits env.acquire_timeout_sec)
                  (λ timeout g.
                    from_parsed_options-IsUsable (given mode ttl beat timeout) role f g)))))
  where
    given : Option StartupCoordinationMode → Option ℕ → Option ℕ → Option ℕ → ParsedEnvOptions
    given mode ttl beat timeout = record {
      mode = mode;
      lease_key = env.lease_key;
      lease_ttl_sec = ttl;
      heartbeat_sec = beat;
      acquire_timeout_sec = timeout;
    }

    read_timeout :
        Option StartupCoordinationMode → Option ℕ → Option ℕ → Result StartupCoordinationConfig
    read_timeout mode ttl beat =
        and_then (parse_setting env.acquire_timeout_sec)
          (λ timeout. from_parsed_options (given mode ttl beat timeout) role)

    read_beat : Option StartupCoordinationMode → Option ℕ → Result StartupCoordinationConfig
    read_beat mode ttl = and_then (parse_setting env.heartbeat_sec) (read_timeout mode ttl)

    read_ttl : Option StartupCoordinationMode → Result StartupCoordinationConfig
    read_ttl mode = and_then (parse_setting env.lease_ttl_sec) (read_beat mode)

take_all : {A : Type 0} (n : ℕ) (xs : List A) → length xs ≤ n → take n xs ≡ xs
take_all zero [] h = refl
take_all zero (x ∷ xs) h = absurd (omega arith)
take_all (suc n) [] h = refl
take_all (suc n) (x ∷ xs) h = ap (λ r. x ∷ r) (take_all n xs (omega arith))

-- The recorded text of an error is the beginning of the trimmed message, and never longer than
-- 320 characters.
pub clipped_is_prefix :
    (message : Text)
    → (clipped_error_text message ≡ take max_recorded_error_len (trim message))
      × (length (clipped_error_text message) ≤ max_recorded_error_len)
unfolding clipped_error_text
clipped_is_prefix message =
    let cut = length-take max_recorded_error_len (trim message) in
    if_split
      (λ t. (t ≡ take max_recorded_error_len (trim message)) × (length t ≤ max_recorded_error_len))
      (leb (length (trim message)) max_recorded_error_len)
      (λ e. (sym (take_all max_recorded_error_len (trim message) (leb→le _ _ e)), leb→le _ _ e))
      (λ e. (refl, omega (arith, cut)))
