-- ===== src/Xray/Dns.antt =====
-- core/xray/dns.go: the DNS configuration that a node brings is written to a file. The file system,
-- the JSON codecs, `net.SplitHostPort`, `strconv.ParseUint` and what xray-core accepts are parameters;
-- `F` is the state of the file. That the loop writes the split address back into the node is left out.
use v2sp.Prelude.{
  ◌≢◌, ◌↔◌, false, if◌then◌else◌, nat_eq, option_or, int_eq, is_empty, Map, Text, codes, text_beq,
  text_eq, contains_byte, ℕ, ◌≡◌, refl, ◌⊎◌, inl, inr, not, ◌&&◌, Option, none, some, List, [], ◌∷◌,
  ◌++◌, arith,
}
use v2sp.Panel.{RawDns, DnsServer}

-- One server of the configuration; the port is set where the address had one.
pub record DnsEntry : Type 0 where
  pub address : Text
  pub port : Option ℕ
  pub domains : List Text

-- An error is its text. `unmarshal` and `build` are the two steps that the configuration passes.
pub record DnsSystem (F : Type 0) : Type 0 where
  pub read_file : F → Text ⊎ Text
  pub truncate : F → F × Option Text
  pub write_file : Text → F → F × Option Text
  pub unmarshal : Text → Option Text
  pub build : Text → Option Text
  pub indent : Text → Text ⊎ Text
  pub marshal : List DnsEntry → Text ⊎ Text
  pub split_host_port : Text → Text ⊎ (Text × Text)
  pub parse_port : Text → Option ℕ

list-cases : {A : Type 0} (xs : List A) → (xs ≡ []) ⊎ (is_empty xs ≡ false)
list-cases [] = inl refl
list-cases (x ∷ xs) = inr refl

module _ {F : Type 0} (s : DnsSystem F) where
  -- `saveDnsConfig`. The error that `Build` declares anew hides the one that is returned: what is
  -- returned behind it is the error of `Unmarshal`.
  unfoldable pub save_dns_config : Text → F → F × Option Text
  save_dns_config dns f = elim (s.read_file f) [
    | inl e ↦ (f, some e)
    | inr current ↦ if text_beq current dns then (f, none) else elim (s.build dns) [
      | some e ↦ (f, some e)
      | none ↦
          let (f1, truncated) = s.truncate f in
          let (f2, written) = s.write_file dns f1 in (f2, s.unmarshal dns)
    ]
  ]

  unfoldable pub dns_entry : DnsServer → Text ⊎ DnsEntry
  unfolding contains_byte
  dns_entry server =
      if contains_byte b':' server.address && not (contains_byte b'/' server.address)
      then elim (s.split_host_port server.address) [
        | inl e ↦ inl e
        | inr (host, port) ↦ inr (record {
          address = host;
          port = some (option_or (s.parse_port port) 0);
          domains = server.domains;
        })
      ]
      else inr (record { address = server.address; port = none; domains = server.domains })

  -- The loop over `DNSMap`.
  unfoldable pub dns_entries : Map Text DnsServer → List DnsEntry → Text ⊎ List DnsEntry
  unfolding dns_entry
  dns_entries [] servers = inr servers
  dns_entries ((name, server) ∷ rest) servers = elim (dns_entry server) [
    | inl e ↦ inl e
    | inr entry ↦ dns_entries rest (servers ++ (entry ∷ []))
  ]

  abbrev pub first_servers : List DnsEntry
  first_servers =
      record { address = codes "1.1.1.1"; port = none; domains = [] }
      ∷ record { address = codes "localhost"; port = none; domains = [] }
      ∷ []

  -- `updateDNSConfig`. In the second branch the error of saving is stored in a variable of the branch,
  -- and the one that is returned stays nil.
  unfoldable pub update_dns_config : RawDns → F → F × Option Text
  unfolding save_dns_config dns_entries
  update_dns_config raw f =
      if not (is_empty raw.dns_json)
      then elim (s.indent raw.dns_json) [
        | inl e ↦ (f, some e)
        | inr pretty ↦ save_dns_config pretty f
      ]
      else if not (is_empty raw.dns_map)
      then elim (dns_entries raw.dns_map first_servers) [
        | inl e ↦ (f, some e)
        | inr servers ↦ elim (s.marshal servers) [
          | inl e ↦ (f, some e)
          | inr dns ↦ ((save_dns_config dns f).0, none)
        ]
      ]
      else (f, none)

  -- Why the update of a node with a map of servers may fail.
  unfoldable pub IsMapError : RawDns → Text → Type 0
  IsMapError raw e =
      (dns_entries raw.dns_map first_servers ≡ inl e)
      ⊎ ((servers : List DnsEntry) × (dns_entries raw.dns_map first_servers ≡ inr servers)
          × (s.marshal servers ≡ inl e))

  -- Why the update may fail with this error: on indenting or on saving what the node brings as JSON,
  -- or, where it brings a map of servers alone, as above and with the file left alone.
  unfoldable pub IsUpdateError : RawDns → F → Text → Type 0
  IsUpdateError raw f e =
      ((raw.dns_json ≢ [])
        × ((s.indent raw.dns_json ≡ inl e)
            ⊎ ((pretty : Text) × (s.indent raw.dns_json ≡ inr pretty)
                × ((save_dns_config pretty f).1 ≡ some e))))
      ⊎ ((raw.dns_json ≡ [])
          × (raw.dns_map ≢ [])
          × ((update_dns_config raw f).0 ≡ f)
          × IsMapError raw e)

  json_failed :
      (raw : RawDns) (f : F) (e : Text) (r : Text ⊎ Text)
      → is_empty raw.dns_json ≡ false
      → s.indent raw.dns_json ≡ r
      → ((update_dns_config raw f).1 ≡ some e) ↔ (
          (s.indent raw.dns_json ≡ inl e)
          ⊎ ((pretty : Text) × (s.indent raw.dns_json ≡ inr pretty)
              × ((save_dns_config pretty f).1 ≡ some e)))
  unfolding update_dns_config
  json_failed raw f e (inl e') json indented = (λ h. inl (ground arith), λ h. ground arith)
  json_failed raw f e (inr pretty) json indented =
      (λ h. inr (pretty, indented, ground arith), λ h. ground arith)

  marshal_failed :
      (raw : RawDns) (f : F) (e : Text) (servers : List DnsEntry) (r : Text ⊎ Text)
      → raw.dns_json ≡ []
      → is_empty raw.dns_map ≡ false
      → dns_entries raw.dns_map first_servers ≡ inr servers
      → s.marshal servers ≡ r
      → ((update_dns_config raw f).1 ≡ some e)
        ↔ (((update_dns_config raw f).0 ≡ f) × (s.marshal servers ≡ inl e))
  unfolding update_dns_config
  marshal_failed raw f e servers (inl e') json given parsed encoded =
      (λ h. ground arith, λ h. ground arith)
  marshal_failed raw f e servers (inr dns) json given parsed encoded =
      (λ h. ground arith, λ h. ground arith)

  map_error_reported :
      (raw : RawDns) (f : F) (e : Text)
      → raw.dns_json ≡ []
      → is_empty raw.dns_map ≡ false
      → IsMapError raw e
      → (update_dns_config raw f).1 ≡ some e
  unfolding update_dns_config IsMapError
  map_error_reported raw f e json given (inl bad) = ground arith
  map_error_reported raw f e json given (inr (servers, parsed, bad)) = ground arith

  map_failed :
      (raw : RawDns) (f : F) (e : Text) (r : Text ⊎ List DnsEntry)
      → raw.dns_json ≡ []
      → is_empty raw.dns_map ≡ false
      → dns_entries raw.dns_map first_servers ≡ r
      → (update_dns_config raw f).1 ≡ some e
      → ((update_dns_config raw f).0 ≡ f) × IsMapError raw e
  unfolding update_dns_config IsMapError
  map_failed raw f e (inl e') json given parsed h = (ground arith, inl (ground arith))
  map_failed raw f e (inr servers) json given parsed h =
      let (there, back) =
        marshal_failed raw f e servers (s.marshal servers) json given parsed refl in
      ((there h).0, inr (servers, parsed, (there h).1))

  -- The bug: the update fails with an error exactly if indenting or saving the node's JSON fails with
  -- it, or, for a node with a map of servers and no JSON, an address or the encoding does: an error
  -- in saving the map is lost, whatever the file system does.
  pub update_dns_config-map :
      (raw : RawDns) (f : F) (e : Text)
      → ((update_dns_config raw f).1 ≡ some e) ↔ IsUpdateError raw f e
  unfolding IsUpdateError update_dns_config
  update_dns_config-map raw f e = elim (list-cases raw.dns_json) [
    | inr json ↦
        let (there, back) =
          json_failed raw f e (s.indent raw.dns_json) (ground (arith, json)) refl in
        (
          λ h. inl (ground (arith, json), there h),
          elim [
            | inl (_, bad) ↦ back bad
            | inr (none_json, _, _, _) ↦ absurd (ground (arith, json))
          ],
        )
    | inl no_json ↦ elim (list-cases raw.dns_map) [
      | inl no_map ↦ (
        λ h. absurd (ground (arith, no_json, no_map)),
        elim [
          | inl (some_json, _) ↦ absurd (some_json no_json)
          | inr (_, some_map, _, _) ↦ absurd (some_map no_map)
        ],
      )
      | inr some_map ↦
          let there =
            map_failed raw f e (dns_entries raw.dns_map first_servers) no_json some_map refl in
          (
            λ h. inr (no_json, ground (arith, some_map), (there h).0, (there h).1),
            elim [
              | inl (some_json, _) ↦ absurd (some_json no_json)
              | inr (_, _, kept, bad) ↦ map_error_reported raw f e no_json some_map bad
            ],
          )
    ]
  ]
