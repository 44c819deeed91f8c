-- ===== src/Node/Cert.antt =====
-- requestCert of node/cert.go. The file system and the ACME client (github.com/go-acme/lego) are
-- parameters: whether a file exists, and the error, if any, of each way to make a certificate.
use v2sp.Prelude.{
  if◌then◌else◌, ◌==◌, nat_eq, int_eq, Text, codes, text_eq, Bool, ◌&&◌, ◌||◌, Option, none, some,
  [], ◌++◌,
}
use v2sp.Conf.{CertConfig}

pub record CertTools : Type 0 where
  pub file_exists : Text → Bool
  pub new_lego : CertConfig → Option Text
  pub create_cert : CertConfig → Option Text
  -- The domain, the certificate's path and the key's.
  pub generate_self : Text → Text → Text → Option Text

-- `fmt.Errorf("…: %s", err)`.
unfoldable pub prefixed : Text → Option Text → Option Text
prefixed what none = none
prefixed what (some e) = some (what ++ e)

unfoldable pub no_paths : CertConfig → Bool
no_paths c = c.cert_file == [] || c.key_file == []

module _ (tools : CertTools) where
  unfoldable pub have_files : CertConfig → Bool
  have_files c = tools.file_exists c.cert_file && tools.file_exists c.key_file

  unfoldable pub request_lego : CertConfig → Option Text
  unfolding prefixed
  request_lego c = elim (tools.new_lego c) [
    | some e ↦ some (codes "create lego object error: " ++ e)
    | none ↦ prefixed (codes "create lego cert error: ") (tools.create_cert c)
  ]

  unfoldable pub request_self : CertConfig → Option Text
  unfolding prefixed
  request_self c =
      prefixed (codes "generate self cert error: ")
        (tools.generate_self c.cert_domain c.cert_file c.key_file)

  unfoldable pub request_cert : CertConfig → Option Text
  unfolding have_files no_paths
  request_cert c =
      let missing : Option Text = some (codes "cert file path or key file path not exist") in
      if c.cert_mode == codes "none" || c.cert_mode == []
      then none
      else if c.cert_mode == codes "file"
      then (if no_paths c then missing else none)
      else if c.cert_mode == codes "dns" || c.cert_mode == codes "http"
      then (if no_paths c then missing else if have_files c then none else request_lego c)
      else if c.cert_mode == codes "self"
      then (if no_paths c then missing else if have_files c then none else request_self c)
      else some (codes "unsupported certmode: " ++ c.cert_mode)
