-- ===== src/Net/Instance.antt =====
-- An instance of the interface: the numbers that are given out are fixed beforehand, and a broken
-- network refuses every call on a descriptor.
use ucxx.Base.{
  ℕ, ◌≤◌, ◌≡◌, refl, subst, List, [], ◌∷◌, Bool, true, false, some, length, take, drop, length-take,
  ◌==◌, if◌then◌else◌, arith,
}
use ucxx.Base.Int.{ℤ, pos, negsuc}
use ucxx.Base.Threads.{update}
use ucxx.Net.Interface.{Net, Call}

pub record Table : Type 0 where
  pub opened : ℕ → Bool
  pub supply : List ℕ
  pub arriving : List ℕ
  pub broken : Bool

abbrev pub given : Bool → Table → ℕ → List ℕ → Call Table ℤ
given true s fd rest = record { net = s; result = negsuc 0 }
given false s fd rest = record {
  net = record s { opened = update s.opened fd true; supply = rest };
  result = pos fd;
}

abbrev pub give_out : Table → List ℕ → Call Table ℤ
give_out s [] = record { net = s; result = negsuc 0 }
give_out s (fd ∷ rest) = given (s.opened fd) s fd rest

abbrev pub table_close : Table → ℤ → Table
table_close s (pos fd) = record s { opened = update s.opened fd false }
table_close s (negsuc _) = s

abbrev pub answer : Table → ℤ
answer s = if s.broken then negsuc 0 else pos 0

abbrev pub table_accept : Table → Call Table (ℤ × List ℕ × ℕ)
table_accept s =
    let given = give_out s s.supply in
    record { net = given.net; result = (given.result, b'1' ∷ [], 80) }

abbrev pub arrived : Bool → Table → ℕ → Call Table (ℤ × List ℕ)
arrived true s n = record { net = s; result = (negsuc 0, []) }
arrived false s n = record {
  net = record s { arriving = drop n s.arriving };
  result = (pos (length (take n s.arriving)), take n s.arriving);
}

given-opens :
    (b : Bool) (s : Table) (k : ℕ) (rest : List ℕ) (fd j : ℕ)
    → s.opened k ≡ b
    → (given b s k rest).result ≡ pos fd
    → (s.opened fd ≡ false)
      × ((given b s k rest).net.opened j ≡ (if fd == j then true else s.opened j))
given-opens true s k rest fd j e h = absurd (cc h)
given-opens false s k rest fd j e h =
    let same : k ≡ fd = cc h in
    subst
      (λ i.
        (s.opened i ≡ false) × (update s.opened k true j ≡ (if i == j then true else s.opened j)))
      same (e, refl)

given-fails :
    (b : Bool) (s : Table) (k : ℕ) (rest : List ℕ) (n j : ℕ)
    → (given b s k rest).result ≡ negsuc n
    → (given b s k rest).net.opened j ≡ s.opened j
given-fails true s k rest n j h = refl
given-fails false s k rest n j h = absurd (cc h)

pub give_out-opens :
    (s : Table) (supply : List ℕ) (fd j : ℕ)
    → (give_out s supply).result ≡ pos fd
    → (s.opened fd ≡ false)
      × ((give_out s supply).net.opened j ≡ (if fd == j then true else s.opened j))
give_out-opens s [] fd j h = absurd (cc h)
give_out-opens s (k ∷ rest) fd j h = given-opens (s.opened k) s k rest fd j refl h

pub give_out-fails :
    (s : Table) (supply : List ℕ) (n j : ℕ)
    → (give_out s supply).result ≡ negsuc n
    → (give_out s supply).net.opened j ≡ s.opened j
give_out-fails s [] n j h = refl
give_out-fails s (k ∷ rest) n j h = given-fails (s.opened k) s k rest n j h

pub arrived-length :
    (broken : Bool) (s : Table) (n k : ℕ)
    → (arrived broken s n).result.0 ≡ pos k
    → (length (arrived broken s n).result.1 ≡ k) × (k ≤ n)
arrived-length true s n k h = absurd (cc h)
arrived-length false s n k h =
    let all_stored : length (take n s.arriving) ≡ k = cc h in
    (all_stored, omega (arith, length-take n s.arriving))

abbrev pub simple_net : Net
simple_net = record {
  State = Table;
  is_open = λ s fd. s.opened fd;
  socket = λ s. give_out s s.supply;
  connect = λ s fd host port. record { net = s; result = answer s };
  bind = λ s fd host port. record { net = s; result = answer s };
  listen = λ s fd backlog. record { net = s; result = answer s };
  select = λ s fd. record { net = s; result = pos 1 };
  accept = λ s fd. table_accept s;
  recv = λ s fd n. arrived s.broken s n;
  send = λ s fd bytes. record { net = s; result = pos (length bytes) };
  pending = λ s fd. some (length s.arriving);
  set_timeout = λ s fd. s;
  shutdown = λ s fd how. s;
  close = λ s fd. table_close s fd;
  socket-opens = λ s fd j h. give_out-opens s s.supply fd j h;
  socket-fails = λ s n j h. give_out-fails s s.supply n j h;
  accept-opens = λ s l fd j h. give_out-opens s s.supply fd j h;
  accept-fails = λ s l n j h. give_out-fails s s.supply n j h;
  connect-keeps = λ s fd host port j. refl;
  bind-keeps = λ s fd host port j. refl;
  listen-keeps = λ s fd backlog j. refl;
  select-keeps = λ s fd j. refl;
  shutdown-keeps = λ s fd how j. refl;
  set_timeout-keeps = λ s fd j. refl;
  close-closes = λ s fd j. refl;
  close-fails = λ s n j. refl;
  recv-length = λ s fd n k h. arrived-length s.broken s n k h;
}
