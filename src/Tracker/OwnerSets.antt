-- ===== src/Tracker/OwnerSets.antt =====
-- Laws of lists and sets of owners.
use vscode_dotnet_runtime.Prelude.{
  ◌≡◌, refl, ap, ◌↔◌, true, false, ◌&&◌, ◌||◌, none, some, List, [], ◌∷◌, ◌++◌, arith, keep,
}
use vscode_dotnet_runtime.Text.{Text, ===_iff}
use vscode_dotnet_runtime.Tracker.State.{InstallOwner, same_owner, has_owner}
use vscode_dotnet_runtime.Tracker.Installs.{differs_from, add_owner, add_owners_from, is_named}

pub same_owner_iff : (a b : InstallOwner) → (same_owner a b ≡ true) ↔ (a ≡ b)
unfolding same_owner
same_owner_iff none none = ground arith
same_owner_iff none (some b) = ground arith
same_owner_iff (some a) none = ground arith
same_owner_iff (some a) (some b) = ground (arith, ===_iff a b)

has_owner-append :
    (o : InstallOwner) (xs ys : List InstallOwner)
    → has_owner o (xs ++ ys) ≡ (has_owner o xs || has_owner o ys)
unfolding has_owner
has_owner-append o [] ys = refl
has_owner-append o (x ∷ xs) ys = ground (arith, has_owner-append o xs ys)

pub has_owner-add_owner :
    (o a : InstallOwner) (xs : List InstallOwner)
    → has_owner o (add_owner a xs) ≡ (same_owner a o || has_owner o xs)
unfolding add_owner
has_owner-add_owner o a xs = ground (arith, has_owner-append o xs (a ∷ []), same_owner_iff a o)

pub has_owner-add_owners_from :
    (o : InstallOwner) (xs ys : List InstallOwner)
    → has_owner o (add_owners_from xs ys) ≡ (has_owner o xs || has_owner o ys)
unfolding add_owners_from has_owner
has_owner-add_owners_from o xs [] = ground arith
has_owner-add_owners_from o xs (y ∷ ys) =
    ground (arith, has_owner-add_owners_from o (add_owner y xs) ys, has_owner-add_owner o y xs)

pub has_owner-keep_named :
    (o : InstallOwner) (xs : List InstallOwner)
    → has_owner o (keep is_named xs) ≡ (is_named o && has_owner o xs)
unfolding has_owner
has_owner-keep_named o [] = ground arith
has_owner-keep_named o (x ∷ xs) = ground (arith, has_owner-keep_named o xs, same_owner_iff x o)

-- What a removal leaves of a list that did not have the requester is the list.
pub keep_others :
    (r : Text) (xs : List InstallOwner)
    → has_owner (some r) xs ≡ false
    → keep (differs_from (some r)) (xs ++ some r ∷ []) ≡ xs
unfolding has_owner differs_from
keep_others r [] h = ground (arith, same_owner_iff (some r) (some r))
keep_others r (x ∷ xs) h = ground (arith, keep_others r xs)

pub keep_all : (xs : List InstallOwner) → keep (differs_from none) xs ≡ xs
unfolding differs_from
keep_all [] = refl
keep_all (x ∷ xs) = ap (◌∷◌ x) (keep_all xs)
