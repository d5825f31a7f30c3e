-- ===== src/Discover/Annotations/Choices.antt =====
-- The annotation proxy-port, in internal/autodiscover/autodiscover.go.
use pangolin_operator.Base.{true, ◌≡◌, ◌⊎◌, arith}
use pangolin_operator.Base.Int.{ℤ, pos, leb_ℤ}
use pangolin_operator.Discover.Annotations.{Resolver, proxy_port}

-- The proxy port is the default, or a number from 1 to 65535.
pub proxy_port-InRange :
    (r : Resolver) (default_port : ℤ)
    → (proxy_port r default_port ≡ default_port)
      ⊎ ((leb_ℤ (pos 1) (proxy_port r default_port) ≡ true)
          × (leb_ℤ (proxy_port r default_port) (pos 65535) ≡ true))
unfolding proxy_port
proxy_port-InRange r default_port = ground arith
