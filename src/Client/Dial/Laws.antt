-- ===== src/Client/Dial/Laws.antt =====
-- To which addresses a dialer connects.
use meek.Base.{Bytes, Option, ◌≡◌, All}
use meek.Go.Errors.{Result}
use meek.Client.Url.{Url}
use meek.Client.Utls.{Auth, Dialer, direct, socks5, http_proxy, utls_dialer, Conn}
use meek.Client.Dial.{Net, Dial, Peers, utls_dial}

-- The address to which a dialer connects, when it is asked for another.
abbrev pub reached : Dialer → Bytes → Bytes
reached direct addr = addr
reached (socks5 proxy auth forward) addr = reached forward proxy
reached (http_proxy proxy auth forward) addr = reached forward proxy
reached (utls_dialer hello forward) addr = reached forward addr

-- Only this address was dialed.
abbrev pub Only : {W : Type 0} → Bytes → Net W → Type 0
Only a n = All (λ b. b ≡ a) n.dialed

-- The dial at this address adds none but `a`.
abbrev pub Keeps : {W : Type 0} → Bytes → Dial W → Bytes → Type 0
Keeps a f addr = (n : Net _) → Only a n → Only a (f addr n).1

-- The SOCKS5 dialer reaches the network by its forward dialer, at the address of the proxy.
abbrev pub Forwards : {W : Type 0} → Peers W → Type 0
Forwards x =
    (a : Bytes) (auth : Option Auth) (f : Dial _) (proxy addr : Bytes)
    → Keeps a f proxy
    → Keeps a (x.socks5_dial auth f proxy) addr

module _ {W : Type 0} (x : Peers W) (forwards : Forwards x) (configured : Bytes) where
  -- A dialer that goes to the same address whatever it is asked for.
  abbrev Fixed : Bytes → Dialer → Type 0
  Fixed a d = (addr : Bytes) → reached d addr ≡ a

  module _ (hello : Bytes) (d : Dialer) (a : Bytes) (fixed : Fixed a d) where
    abbrev dial : Bytes → Net W → Result Conn × Net W
    dial = utls_dial x configured hello d
