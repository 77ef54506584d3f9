-- ===== src/Observation/Kinds.antt =====
-- internal/domain/wallet_kind.go: what is left of an account kind once it is normalised.
use cafe_discovery.Base.{true, false, ◌≡◌, refl, ap, text_eq}
use cafe_discovery.Observation.{
  account_type_eoa, account_type_aa, account_type_contract, WalletType, wallet_type_eoa,
  wallet_type_smart_account, wallet_type_contract, wallet_type_unknown, derive_wallet_type,
  AccountKind, kind_of, normalize_wallet_account_kind,
}

pub kind_of-derive :
    (w : WalletType) → derive_wallet_type (kind_of w).0 (kind_of w).1 (kind_of w).2 ≡ w
unfolding derive_wallet_type text_eq
kind_of-derive wallet_type_eoa = refl
kind_of-derive wallet_type_smart_account = refl
kind_of-derive wallet_type_contract = refl
kind_of-derive wallet_type_unknown = refl

-- The flags and the wallet type say what the type says.
abbrev pub IsAligned : AccountKind → WalletType → Type 0
IsAligned (t, is_eoa, is_4337) w =
    (text_eq t account_type_eoa ≡ is_eoa)
    × (text_eq t account_type_aa ≡ is_4337)
    × (text_eq t account_type_contract ≡ elim w [ wallet_type_contract ↦ true | _ ↦ false ])

kind_of-IsAligned : (w : WalletType) → IsAligned (kind_of w) w
unfolding text_eq
kind_of-IsAligned wallet_type_eoa = (refl, refl, refl)
kind_of-IsAligned wallet_type_smart_account = (refl, refl, refl)
kind_of-IsAligned wallet_type_contract = (refl, refl, refl)
kind_of-IsAligned wallet_type_unknown = (refl, refl, refl)

-- Whatever type and flags a scanner reports, NormalizeWalletAccountKind answers with flags that agree
-- with its type: is_eoa holds exactly of EOA, is_erc4337 exactly of AA, and the wallet type is a
-- contract exactly for Contract; the wallet type is that of the report, and normalising again
-- changes nothing.
pub normalize-IsAligned :
    (k : AccountKind)
    → IsAligned (normalize_wallet_account_kind k).0 (normalize_wallet_account_kind k).1
      × ((normalize_wallet_account_kind k).1 ≡ derive_wallet_type k.0 k.1 k.2)
      × (normalize_wallet_account_kind (normalize_wallet_account_kind k).0
          ≡ normalize_wallet_account_kind k)
unfolding normalize_wallet_account_kind
normalize-IsAligned (t, is_eoa, is_4337) = (
  kind_of-IsAligned (derive_wallet_type t is_eoa is_4337),
  refl,
  ap (λ v. (kind_of v, v)) (kind_of-derive (derive_wallet_type t is_eoa is_4337)),
)
