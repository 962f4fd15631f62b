-- ===== src/Upstream/Target/Tests.antt =====
-- Base URLs as a configuration has them.
use kvmux.Prelude.{◌≡◌, refl, codes}
use kvmux.Upstream.Target.{
  target, https_unsupported, unparsable, strip_prefix, up_to, past, check_target, host_and_port,
  parse_authority, parse,
}

default_port : parse (codes "gpu0/") ≡ target (record { host = codes "gpu0"; port = codes "80" })
unfolding parse strip_prefix parse_authority host_and_port check_target up_to past
default_port = refl

no_tls : parse (codes "https://gpu0") ≡ https_unsupported
unfolding parse strip_prefix
no_tls = refl

no_host : parse (codes "http://:80") ≡ unparsable
unfolding parse strip_prefix parse_authority host_and_port check_target up_to past
no_host = refl
