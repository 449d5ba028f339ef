-- ===== src/Screen/Names.antt =====
-- The tables of names that are printed: def_icmp.h, `protocols` of global.h, fingerprint.h and the
-- icons of aping.c. An entry that is not set is NULL.
use Prim.Native.String.{String}
use aping.Base.{ℕ, ◌+◌, ◌*◌, List, [], ◌∷◌, Option, none, some, ◌==◌, if◌then◌else◌}

-- An array of pointers by its entries.
unfoldable pub entry : List (ℕ × String) → ℕ → Option String
entry [] i = none
entry ((j, s) ∷ es) i = if i == j then some s else entry es i

-- The entries of `icmp_type_str`, which has 64, and of `icmp_code_str`, which has 64 * 64.
abbrev pub icmp_type_str : List (ℕ × String)
icmp_type_str =
    (0, "echo_rpl")
    ∷ (3, "unreach")
    ∷ (4, "squench")
    ∷ (5, "redirect")
    ∷ (6, "alternate")
    ∷ (8, "echo")
    ∷ (9, "router_adv")
    ∷ (10, "router_slc")
    ∷ (11, "t-xceed")
    ∷ (12, "par-error")
    ∷ (13, "tstamp")
    ∷ (14, "tstamp_rpl")
    ∷ (15, "info")
    ∷ (16, "info_rpl")
    ∷ (17, "mask")
    ∷ (18, "mask_rpl")
    ∷ (30, "traceroute")
    ∷ (31, "datagram")
    ∷ (32, "mobile_rdct")
    ∷ (35, "mobile")
    ∷ (36, "mobile_rpl")
    ∷ (37, "domain-name")
    ∷ (38, "domain-name_rpl")
    ∷ (39, "skip")
    ∷ (40, "security")
    ∷ []

-- `INDEX`.
abbrev pub index_of : ℕ → ℕ → ℕ
index_of a b = a * 64 + b

abbrev pub icmp_code_str : List (ℕ × String)
icmp_code_str =
    (192, "net unreachable")
    ∷ (193, "host unreachable")
    ∷ (194, "protocol unreachable")
    ∷ (195, "port unreachable")
    ∷ (196, "fragmentation needed and DF set")
    ∷ (197, "source route failed")
    ∷ (198, "unknown network")
    ∷ (199, "unknown host")
    ∷ (200, "host isolated")
    ∷ (201, "network prohib (crypto devs)")
    ∷ (202, "host prohib (ditto)")
    ∷ (203, "bad tos for net")
    ∷ (204, "bad tos for host")
    ∷ (205, "packet filtered")
    ∷ (206, "precedence violation")
    ∷ (207, "precedence cuf off")
    ∷ (256, "source quench")
    ∷ (320, "redirect datagr. for net")
    ∷ (321, "redirect datagr. for host")
    ∷ (322, "redirect datagr. for tos and net")
    ∷ (323, "redirect datagr. for tos and host")
    ∷ (576, "router advertisement")
    ∷ (592, "does not route common traffic")
    ∷ (640, "router selection")
    ∷ (704, "ttl exceeded in transit")
    ∷ (705, "fragment reassembly exceeded")
    ∷ (768, "pointer indicates the error")
    ∷ (769, "missing option")
    ∷ (770, "bad lenght")
    ∷ (832, "timestamp")
    ∷ (896, "timestamp reply")
    ∷ (960, "information request")
    ∷ (1024, "information reply")
    ∷ (1088, "mask request")
    ∷ (1152, "mask reply")
    ∷ (1920, "traceroute-forwarded")
    ∷ (1921, "packet-discarded")
    ∷ (1984, "datagram-conversion-error")
    ∷ (2048, "mobile-host-redirect")
    ∷ (2240, "mobile-registration-request")
    ∷ (2304, "mobile-registration-reply")
    ∷ (2368, "domain-name-request")
    ∷ (2432, "domain-name-reply")
    ∷ (2560, "bad-spi")
    ∷ (2561, "authentication-failed")
    ∷ (2562, "decompression-failed")
    ∷ (2563, "decryption-failed")
    ∷ (2564, "need-authentication")
    ∷ (2565, "need-authorization")
    ∷ []

abbrev pub protocols : List (ℕ × String)
protocols =
    (0, "ip")
    ∷ (1, "icmp")
    ∷ (2, "igmp")
    ∷ (3, "ggp")
    ∷ (4, "ipencap")
    ∷ (5, "st")
    ∷ (6, "tcp")
    ∷ (7, "ucl")
    ∷ (8, "egp")
    ∷ (9, "igp")
    ∷ (10, "bbn-rcc-mon")
    ∷ (11, "nvp-ii")
    ∷ (12, "pup")
    ∷ (13, "argus")
    ∷ (14, "emcon")
    ∷ (15, "xnet")
    ∷ (16, "chaos")
    ∷ (17, "udp")
    ∷ (18, "mux")
    ∷ (19, "dcn-meas")
    ∷ (20, "hmp")
    ∷ (21, "prm")
    ∷ (22, "xns-idp")
    ∷ (23, "trunk-1")
    ∷ (24, "trunk-2")
    ∷ (25, "leaf-1")
    ∷ (26, "leaf-2")
    ∷ (27, "rdp")
    ∷ (28, "irtp")
    ∷ (29, "iso-tp4")
    ∷ (30, "netblt")
    ∷ (31, "mfe-nsp")
    ∷ (32, "merit-inp")
    ∷ (33, "sep")
    ∷ (34, "3pc")
    ∷ (35, "idpr")
    ∷ (36, "xtp")
    ∷ (37, "ddp")
    ∷ (38, "idpr-cmtp")
    ∷ (39, "idpr-cmtp")
    ∷ (40, "il")
    ∷ (41, "ipv6")
    ∷ (42, "sdrp")
    ∷ (43, "sip-sr")
    ∷ (44, "sip-frag")
    ∷ (45, "idrp")
    ∷ (46, "rsvp")
    ∷ (47, "gre")
    ∷ (48, "mhrp")
    ∷ (49, "bna")
    ∷ (50, "esp")
    ∷ (51, "ah")
    ∷ (52, "i-nlsp")
    ∷ (53, "swipe")
    ∷ (54, "nhrp")
    ∷ (55, "mobileip")
    ∷ (57, "skip")
    ∷ (58, "ipv6-icmp")
    ∷ (59, "ipv6-nonxt")
    ∷ (60, "ipv6-opts")
    ∷ (61, "any")
    ∷ (62, "cftp")
    ∷ (63, "any")
    ∷ (64, "sat-expak")
    ∷ (65, "kryptolan")
    ∷ (66, "rvd")
    ∷ (67, "ippc")
    ∷ (68, "any")
    ∷ (69, "sat-mon")
    ∷ (70, "visa")
    ∷ (71, "ipcv")
    ∷ (72, "cpnx")
    ∷ (73, "cphb")
    ∷ (74, "wsn")
    ∷ (75, "pvp")
    ∷ (76, "br-sat-mon")
    ∷ (77, "sun-nd")
    ∷ (78, "wb-mon")
    ∷ (79, "wb-expak")
    ∷ (80, "iso-ip")
    ∷ (81, "vmtp")
    ∷ (82, "secure-vmtp")
    ∷ (83, "vines")
    ∷ (84, "ttp")
    ∷ (85, "nsfnet-igp")
    ∷ (86, "dgp")
    ∷ (87, "tcf")
    ∷ (88, "igrp")
    ∷ (89, "ospf")
    ∷ (90, "sprite-rpc")
    ∷ (91, "larp")
    ∷ (92, "mtp")
    ∷ (93, "ax.25")
    ∷ (94, "ipip")
    ∷ (95, "micp")
    ∷ (96, "scc-sp")
    ∷ (97, "etherip")
    ∷ (98, "encap")
    ∷ (99, "any")
    ∷ (100, "gmtp")
    ∷ (103, "pim")
    ∷ (108, "ipcomp")
    ∷ (112, "vrrp")
    ∷ (255, "reserved")
    ∷ []

-- `fingerprint_vector` up to its end.
abbrev fingerprint_vector : List (ℕ × String)
fingerprint_vector =
    (1134562324, "hping2 release")
    ∷ (3259826144, "BSD, linux 2.2(debian)")
    ∷ (3904731629, "openbsd, netbsd, aix")
    ∷ (2384573344, "linux 2.4 (slack,redhat,mdk)")
    ∷ (3199159776, "linux 2.4b")
    ∷ (3710058560, "linux 2.4 (debian woody)")
    ∷ (564517021, "win98 fe,me")
    ∷ (1463030269, "win98 se")
    ∷ (3158421421, "solaris 8")
    ∷ (801825629, "nt4")
    ∷ (2963165, "win 2000 Pro v.5.00")
    ∷ (2770140242, "winxp home edition")
    ∷ (2110941629, "winxp,2k")
    ∷ (2323906976, "linux 2.2 PPC")
    ∷ (3219087789, "netbsd PPC")
    ∷ (1782964480, "freebsd 4.5-STABLE")
    ∷ (2323906976, "freebsd+ppp")
    ∷ (833495333, "router cisco")
    ∷ []

-- `get_fprint`.
unfoldable pub get_fprint : ℕ → String
unfolding entry
get_fprint h = elim (entry fingerprint_vector h) [ none ↦ "unknown" | some s ↦ s ]

-- `"->DZL>"`.
abbrev pub icon_set : List ℕ
icon_set = b'-' ∷ b'>' ∷ b'D' ∷ b'Z' ∷ b'L' ∷ b'>' ∷ []
