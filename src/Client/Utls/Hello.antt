-- ===== src/Client/Utls/Hello.antt =====
-- clientHelloIDMap of meek-client/utls.go, and its lookup. A fingerprint is the name that it has in
-- the uTLS library; `none` is a nil entry, which turns uTLS off.
use meek.Base.{
  Bytes, codes, [], ◌∷◌, Option, none, some, Bool, true, Map, lookup, ◌≡◌, refl, ◌&&◌, arith, same,
  same_iff,
}
use meek.Go.Text.{to_lower}

abbrev pub client_hello_id_map : Map (Option Bytes)
client_hello_id_map =
    (codes "none", none)
    ∷ (codes "hellogolang", none)
    ∷ (codes "hellorandomizedalpn", some (codes "HelloRandomizedALPN"))
    ∷ (codes "hellorandomizednoalpn", some (codes "HelloRandomizedNoALPN"))
    ∷ (codes "hellofirefox_auto", some (codes "HelloFirefox_Auto"))
    ∷ (codes "hellofirefox_55", some (codes "HelloFirefox_55"))
    ∷ (codes "hellofirefox_56", some (codes "HelloFirefox_56"))
    ∷ (codes "hellofirefox_63", some (codes "HelloFirefox_63"))
    ∷ (codes "hellofirefox_65", some (codes "HelloFirefox_65"))
    ∷ (codes "hellofirefox_99", some (codes "HelloFirefox_99"))
    ∷ (codes "hellofirefox_102", some (codes "HelloFirefox_102"))
    ∷ (codes "hellofirefox_105", some (codes "HelloFirefox_105"))
    ∷ (codes "hellochrome_auto", some (codes "HelloChrome_Auto"))
    ∷ (codes "hellochrome_58", some (codes "HelloChrome_58"))
    ∷ (codes "hellochrome_62", some (codes "HelloChrome_62"))
    ∷ (codes "hellochrome_70", some (codes "HelloChrome_70"))
    ∷ (codes "hellochrome_72", some (codes "HelloChrome_72"))
    ∷ (codes "hellochrome_83", some (codes "HelloChrome_83"))
    ∷ (codes "hellochrome_87", some (codes "HelloChrome_87"))
    ∷ (codes "hellochrome_96", some (codes "HelloChrome_96"))
    ∷ (codes "hellochrome_100", some (codes "HelloChrome_100"))
    ∷ (codes "hellochrome_102", some (codes "HelloChrome_102"))
    ∷ (codes "helloios_auto", some (codes "HelloIOS_Auto"))
    ∷ (codes "helloios_11_1", some (codes "HelloIOS_11_1"))
    ∷ (codes "helloios_12_1", some (codes "HelloIOS_12_1"))
    ∷ (codes "helloios_13", some (codes "HelloIOS_13"))
    ∷ (codes "helloios_14", some (codes "HelloIOS_14"))
    ∷ (codes "helloedge_85", some (codes "HelloEdge_85"))
    ∷ (codes "hellosafari_16_0", some (codes "HelloSafari_16_0"))
    ∷ (codes "hello360_7_5", some (codes "Hello360_7_5"))
    ∷ (codes "helloqq_11_1", some (codes "HelloQQ_11_1"))
    ∷ []

-- Lookup is case-insensitive.
unfoldable pub find_hello : Bytes → Option (Option Bytes)
unfolding lookup to_lower
find_hello name = lookup (to_lower name) client_hello_id_map

-- Whether each fingerprint has the name of its key.
names_fit : Map (Option Bytes) → Bool
unfolding same to_lower
names_fit [] = true
names_fit ((key, none) ∷ m) = names_fit m
names_fit ((key, some hello) ∷ m) = same (to_lower hello) key && names_fit m

lookup-names_fit :
    (m : Map (Option Bytes)) (k hello : Bytes)
    → names_fit m ≡ true
    → lookup k m ≡ some (some hello)
    → to_lower hello ≡ k
unfolding lookup names_fit
lookup-names_fit [] k hello h e = absurd (ground arith)
lookup-names_fit ((key, none) ∷ m) k hello h e =
    ground (arith, same_iff key k, lookup-names_fit m k hello h)
lookup-names_fit ((key, some x) ∷ m) k hello h e =
    ground (arith, same_iff key k, same_iff (to_lower x) key, lookup-names_fit m k hello)

client_hello_id_map-names_fit : names_fit client_hello_id_map ≡ true
unfolding names_fit
client_hello_id_map-names_fit = refl

-- A name of the table gives the fingerprint of that name: it differs from it in the case of letters at most.
find_hello_lem :
    (name hello : Bytes) → find_hello name ≡ some (some hello) → to_lower hello ≡ to_lower name
unfolding find_hello
find_hello_lem name hello e =
    lookup-names_fit client_hello_id_map (to_lower name) hello client_hello_id_map-names_fit e
