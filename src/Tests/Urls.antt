-- ===== src/Tests/Urls.antt =====
-- Download URLs of ldfd/download/url_builder.go.
use ldf.Prelude.{codes, List, [], ◌∷◌, some, ◌≡◌, refl, arith, All}
use ldf.Download.Url.{
  UpstreamSource, Component, built, normalize_base_url, select_template, build_url,
}
use ldf.Download.Url.Expands.{
  literal, place, base_url, tag, Piece, template_of, NoBrace, PieceNoBrace,
}
use ldf.Download.Url.Template.{build_url-expand}

abbrev upstream : UpstreamSource
upstream = record { url = codes "https://a.org/k.git"; url_template = codes "{base_url}/{tag}.tar" }

abbrev no_templates : Component
no_templates = record { default_url_template = []; github_normalized_template = [] }

abbrev upstream_pieces : List Piece
upstream_pieces = place base_url ∷ literal (codes "/") ∷ place tag ∷ literal (codes ".tar") ∷ []

pieces-NoBrace : All PieceNoBrace upstream_pieces
pieces-NoBrace = omega arith

base_of_upstream : normalize_base_url upstream.url ≡ codes "https://a.org/k"
unfolding normalize_base_url
base_of_upstream = refl

upstream_template : select_template upstream no_templates ≡ template_of upstream_pieces
unfolding select_template
upstream_template = refl

upstream-NoBrace :
    NoBrace (normalize_base_url upstream.url)
    × NoBrace (codes "6.1")
    × NoBrace (codes "https://a.org/k")
upstream-NoBrace = rw base_of_upstream (omega arith)

build_url-expand_example :
    build_url (some upstream) (some no_templates) (codes "6.1")
    ≡ built (codes "https://a.org/k/v6.1.tar")
unfolding normalize_base_url
build_url-expand_example =
    build_url-expand upstream no_templates (codes "6.1") upstream_pieces refl upstream_template
      upstream-NoBrace.0 upstream-NoBrace.1 pieces-NoBrace
