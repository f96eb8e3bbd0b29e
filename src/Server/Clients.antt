-- ===== src/Server/Clients.antt =====
-- The sockets of the clients: how often each is listed, and which a walk over the list closes.
use fritz2ci.Prelude.{
  count, ℕ, ◌+◌, ◌≡◌, refl, false, List, [], ◌∷◌, ◌++◌, map, All, Bool-cases, inl, inr, ◌==◌,
  if◌then◌else◌, arith,
}
use fritz2ci.Server.{Client, remove_marked}

abbrev pub socks : List Client → List ℕ
socks cs = map (λ (c : Client). c.sock) cs

abbrev pub Unmarked : Client → Type 0
Unmarked c = c.remove ≡ false

-- The walk that removes the marked clients keeps the others, and closes what it removes.
pub count-remove_marked :
    (fd : ℕ) (cs : List Client)
    → count fd (socks cs) ≡ count fd (socks (remove_marked cs).0) + count fd (remove_marked cs).1
unfolding count remove_marked
count-remove_marked fd [] = omega arith
count-remove_marked fd (c ∷ cs) =
    let ih = count-remove_marked fd cs in
    elim (Bool-cases c.remove) [
      | inl e ↦ rw e (omega (arith, ih))
      | inr e ↦ rw e (omega (arith, ih))
    ]

pub remove_marked-Unmarked : (cs : List Client) → All Unmarked (remove_marked cs).0
unfolding remove_marked
remove_marked-Unmarked [] = tt
remove_marked-Unmarked (c ∷ cs) = elim (Bool-cases c.remove) [
  | inl e ↦ rw e (remove_marked-Unmarked cs)
  | inr e ↦ rw e (refl, remove_marked-Unmarked cs)
]

-- A client at the end of the list.
pub count-socks :
    (fd : ℕ) (cs : List Client) (c : Client)
    → count fd (socks (cs ++ (c ∷ []))) ≡ (if c.sock == fd then 1 else 0) + count fd (socks cs)
unfolding count
count-socks fd [] c = omega arith
count-socks fd (d ∷ cs) c = omega (arith, count-socks fd cs c)
