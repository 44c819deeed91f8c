-- ===== src/Node/LegoUser.antt =====
-- The account of the ACME client in node/lego.go: `NewLegoUser`, `registerUser`, `Save` and `Load`. The
-- client, the keys and JSON are parameters; opening and writing the file are one step.
use v2sp.Prelude.{
  if◌then◌else◌, ◌==◌, nat_eq, int_eq, Text, codes, text_eq, ◌≡◌, refl, ap, ◌∙◌, ◌⊎◌, inl, inr,
  Option, none, some, [], ◌++◌, arith,
}
use v2sp.Node.Lego.{Files, check_path}

pub record User (K R : Type 0) : Type 0 where
  pub email : Text
  pub registration : Option R
  pub key : Option K
  pub key_encoded : Text

-- A private key that is read: a text that is no PEM block has its nil block followed, a panic.
pub data Decoded (K : Type 0) : Type 0 where
  decoded : K → Decoded K
  undecodable : Text → Decoded K
  no_block : Decoded K

-- `decode` reads the email, the registration and the encoded key.
pub record UserTools (K R : Type 0) : Type 0 where
  pub generate_key : Text ⊎ K
  pub new_client : User K R → Option Text
  pub register : User K R → Text ⊎ R
  pub encode_private : K → Text
  pub decode_private : Text → Decoded K
  pub encode : Text → Option R → Text → Text ⊎ Text
  pub decode : Text → Text ⊎ (Text × Option R × Text)

-- The user, or an error, or a panic.
pub data Loaded (A : Type 0) : Type 0 where
  loaded : A → Loaded A
  unloaded : Text → Loaded A
  panics : Loaded A

module _ {F K R : Type 0} (fs : Files F) (tools : UserTools K R) where
  unfoldable pub save : Text → User K R → F → F × Loaded (User K R)
  unfolding check_path
  save path u f =
      let (f1, err) = check_path fs path f in
      elim err [
        | some e ↦ (f1, unloaded (codes "check path error: " ++ e))
        | none ↦ elim u.key [
          | none ↦ (f1, panics)
          | some key ↦ elim (tools.encode u.email u.registration (tools.encode_private key)) [
            | inl e ↦ (f1, unloaded (codes "marshal json error: " ++ e))
            | inr data' ↦
                let (f2, err') = fs.write_file path data' f1 in
                (
                  f2,
                  elim err' [ some e ↦ unloaded e | none ↦ loaded (record u { key_encoded = [] }) ],
                )
          ]
        ]
      ]

  unfoldable pub load : Text → F → Loaded (User K R)
  load path f = elim (fs.read_file path f) [
    | inl e ↦ unloaded (codes "open file error: " ++ e)
    | inr data' ↦ elim (tools.decode data') [
      | inl e ↦ unloaded (codes "unmarshal json error: " ++ e)
      | inr (email, registration, encoded) ↦ elim (tools.decode_private encoded) [
        | no_block ↦ panics
        | undecodable e ↦ unloaded (codes "decode private key error: " ++ e)
        | decoded key ↦ loaded (record {
          email = email;
          registration = registration;
          key = some key;
          key_encoded = encoded;
        })
      ]
    ]
  ]

  unfoldable pub register_user : Text → User K R → F → F × Loaded (User K R)
  unfolding save
  register_user path u f = elim tools.generate_key [
    | inl e ↦ (f, unloaded (codes "generate key error: " ++ e))
    | inr key ↦
        let u1 : User K R = record u { key = some key } in
        elim (tools.new_client u1) [
          | some e ↦ (f, unloaded (codes "create lego client error: " ++ e))
          | none ↦ elim (tools.register u1) [
            | inl e ↦ (f, unloaded e)
            | inr reg ↦
                let (f', saved) = save path (record u1 { registration = some reg }) f in
                (
                  f',
                  elim saved [
                    | loaded u2 ↦ loaded u2
                    | unloaded e ↦ unloaded (codes "save user error: " ++ e)
                    | panics ↦ panics
                  ],
                )
          ]
        ]
  ]

  -- An account of another email is registered anew.
  unfoldable pub new_lego_user : Text → Text → F → F × Loaded (User K R)
  unfolding load register_user
  new_lego_user path email f =
      if fs.is_exist path f
      then elim (load path f) [
        | unloaded e ↦ (f, unloaded e)
        | panics ↦ (f, panics)
        | loaded u ↦
            let fresh : User K R = record u { registration = none; email = email } in
            if u.email == email then (f, loaded u) else register_user path fresh f
      ]
      else register_user path
          (record { email = email; registration = none; key = none; key_encoded = [] }) f

  -- A save that succeeds has written the text of the account.
  save-written :
      (path : Text) (u u' : User K R) (f : F) (key : K) (c : Option Text) (enc : Text ⊎ Text)
      → u.key ≡ some key
      → (check_path fs path f).1 ≡ c
      → tools.encode u.email u.registration (tools.encode_private key) ≡ enc
      → (save path u f).1 ≡ loaded u'
      → (text : Text) × (tools.encode u.email u.registration (tools.encode_private key) ≡ inr text)
        × ((fs.write_file path text (check_path fs path f).0).1 ≡ none)
        × ((save path u f).0 ≡ (fs.write_file path text (check_path fs path f).0).0)
  unfolding save
  save-written path u u' f key (some e) enc has_key c h saved = ground arith
  save-written path u u' f key none (inl e) has_key c h saved = ground arith
  save-written path u u' f key none (inr text) has_key c h saved =
      (text, h, ground arith, ground arith)

  -- What is saved is read back, when the codecs undo each other and the file holds what was written.
  pub load-save :
      (path : Text) (u u' : User K R) (f : F) (key : K)
      → u.key ≡ some key
      → ((g g' : F) (text : Text)
          → fs.write_file path text g ≡ (g', none)
          → fs.read_file path g' ≡ inr text)
      → ((text : Text)
          → tools.encode u.email u.registration (tools.encode_private key) ≡ inr text
          → tools.decode text ≡ inr (u.email, u.registration, tools.encode_private key))
      → tools.decode_private (tools.encode_private key) ≡ decoded key
      → (save path u f).1 ≡ loaded u'
      → load path (save path u f).0
        ≡ loaded (record {
          email = u.email;
          registration = u.registration;
          key = some key;
          key_encoded = tools.encode_private key;
        })
  unfolding load
  load-save path u u' f key has_key reads decodes private saved =
      let (text, encoded, wrote, same) =
        save-written path u u' f key (check_path fs path f).1
          (tools.encode u.email u.registration (tools.encode_private key)) has_key refl refl
          saved in
      let written = fs.write_file path text (check_path fs path f).0 in
      let read : fs.read_file path (save path u f).0 ≡ inr text =
        ap (fs.read_file path) same
        ∙ reads (check_path fs path f).0 written.0 text (ap (λ w. (written.0, w)) wrote) in
      rw (load, read, decodes text encoded, private)
