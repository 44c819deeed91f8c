-- ===== src/Node/Lego.antt =====
-- node/lego.go: certificates from an ACME server. The client (github.com/go-acme/lego), the file system,
-- JSON and the keys are parameters: `F` is the state of the files, `K` a private key, `R` a
-- registration. `parse_certificate` gives the end of a certificate in nanoseconds.
use v2sp.Prelude.{
  if◌then◌else◌, nat_eq, ℤ, ◌-ℤ◌, quot, ltb_ℤ, int_eq, pos, negsuc, Text, codes, text_eq,
  starts_with, ℕ, zero, suc, ◌*◌, ◌^◌, ◌≡◌, ◌⊎◌, inl, inr, Bool, true, false, not, Option, none,
  some, [], ◌∷◌, ◌++◌, arith,
}
use v2sp.Conf.{CertConfig}
use v2sp.Node.Cert.{prefixed}

pub record Files (F : Type 0) : Type 0 where
  pub read_file : Text → F → Text ⊎ Text
  pub write_file : Text → Text → F → F × Option Text
  pub mkdir_all : Text → F → F × Option Text
  pub is_exist : Text → F → Bool
  pub dir : Text → Text

-- A certificate and its private key.
pub record Acme : Type 0 where
  pub parse_certificate : Text → Text ⊎ ℤ
  pub obtain : Text → Text ⊎ (Text × Text)
  pub renew : Text → Text → Text ⊎ (Text × Text)

-- The two replacements of `parseParams` at the places of the text, from left to right; the number is
-- that of bytes which a replaced name still covers.
unfoldable pub replace_params : Text → Text → ℕ → Text → Text
unfolding starts_with codes
replace_params domain email n [] = []
replace_params domain email (suc n) (c ∷ s) = replace_params domain email n s
replace_params domain email zero (c ∷ s) =
    let is_domain = starts_with (codes "{domain}") (c ∷ s) in
    let is_email = starts_with (codes "{email}") (c ∷ s) in
    let covered = if is_domain then 7 else if is_email then 6 else 0 in
    (if is_domain then domain else if is_email then email else c ∷ [])
    ++ replace_params domain email covered s

unfoldable pub parse_params : CertConfig → Text → Text
unfolding replace_params
parse_params config path = replace_params config.cert_domain config.email 0 path

-- `CheckCert` at the instant `now`: whether to renew. The quotient of the hours is taken exactly.
unfoldable pub check_cert : Acme → ℤ → Text → Bool × Option Text
check_cert acme now file = elim (acme.parse_certificate file) [
  | inl e ↦ (false, some e)
  | inr not_after ↦
      if ltb_ℤ (pos 30) (quot (not_after -ℤ now) (24 * 3600 * 10 ^ 9))
      then (false, none)
      else (true, none)
]

-- Whole days left, rounded towards zero.
quot-days :
    (left : ℤ)
    → ltb_ℤ (pos 30) (quot left (24 * 3600 * 10 ^ 9))
      ≡ not (ltb_ℤ left (pos (31 * 24 * 3600 * 10 ^ 9)))
unfolding quot
quot-days (pos n) = ground arith
quot-days (negsuc n) = ground arith

module _ {F : Type 0} (fs : Files F) where
  unfoldable pub check_path : Text → F → F × Option Text
  unfolding prefixed
  check_path p f =
      if fs.is_exist (fs.dir p) f
      then (f, none)
      else let (f', err) = fs.mkdir_all (fs.dir p) f in
        (f', prefixed (codes "create dir error: ") err)

  -- One half of `writeCert`: the directory of the path, and the file of the path with its names
  -- replaced.
  unfoldable pub write_one : CertConfig → Text → Text → F → F × Option Text
  unfolding check_path parse_params
  write_one config path content f =
      let (f1, err) = check_path path f in
      elim err [
        | some e ↦ (f1, some (codes "check path error: " ++ e))
        | none ↦ fs.write_file (parse_params config path) content f1
      ]

  unfoldable pub write_cert : CertConfig → Text × Text → F → F × Option Text
  unfolding write_one
  write_cert config (cert, key) f =
      let (f1, err) = write_one config config.cert_file cert f in
      elim err [ some e ↦ (f1, some e) | none ↦ write_one config config.key_file key f1 ]

  module _ (acme : Acme) where
    unfoldable pub create_cert : CertConfig → F → F × Option Text
    unfolding write_cert prefixed
    create_cert config f = elim (acme.obtain config.cert_domain) [
      | inl e ↦ (f, some (codes "obtain certificate error: " ++ e))
      | inr certificates ↦
          let (f', err) = write_cert config certificates f in
          (f', prefixed (codes "write certificate error: ") err)
    ]

    -- `RenewCert`: a certificate that is not to be renewed ends the call before its error is seen.
    unfoldable pub renew_cert : ℤ → CertConfig → F → F × Option Text
    unfolding write_cert prefixed check_cert
    renew_cert now config f = elim (fs.read_file config.cert_file f) [
      | inl e ↦ (f, some (codes "read cert file error: " ++ e))
      | inr file ↦
          let (due, err) = check_cert acme now file in
          if not due then (f, none) else elim err [
            | some e ↦ (f, some (codes "check cert error: " ++ e))
            | none ↦ elim (acme.renew config.cert_domain file) [
              | inl e ↦ (f, some e)
              | inr res ↦
                  let (f', err') = write_cert config res f in
                  (f', prefixed (codes "write certificate error: ") err')
            ]
          ]
    ]

    -- The bug: a certificate file that does not parse is left alone, and the call succeeds.
    pub renew_cert-unreadable :
        (now : ℤ) (config : CertConfig) (f : F) (file e : Text)
        → fs.read_file config.cert_file f ≡ inr file
        → acme.parse_certificate file ≡ inl e
        → renew_cert now config f ≡ (f, none)
    unfolding renew_cert check_cert
    renew_cert-unreadable now config f file e read bad = rw (renew_cert, read, check_cert, bad)

    -- A certificate is renewed when less than 31 days are left, and not before.
    pub check_cert-due :
        (now not_after : ℤ) (file : Text)
        → acme.parse_certificate file ≡ inr not_after
        → check_cert acme now file
          ≡ (ltb_ℤ (not_after -ℤ now) (pos (31 * 24 * 3600 * 10 ^ 9)), none)
    unfolding check_cert
    check_cert-due now not_after file h =
        rw (check_cert, h, quot-days (not_after -ℤ now)) (ground arith)
