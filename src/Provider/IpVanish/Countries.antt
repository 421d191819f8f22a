-- ===== src/Provider/IpVanish/Countries.antt =====
-- internal/provider/ipvanish/country_codes.go: the names of the countries.
use tundler.Base.{Text, Option, none, some, List, [], ◌∷◌, codes, text_eq, if◌then◌else◌}

pub country_names : List (Text × Text)
country_names =
    (codes "AD", codes "Andorra")
    ∷ (codes "AE", codes "United Arab Emirates")
    ∷ (codes "AL", codes "Albania")
    ∷ (codes "AM", codes "Armenia")
    ∷ (codes "AR", codes "Argentina")
    ∷ (codes "AT", codes "Austria")
    ∷ (codes "AU", codes "Australia")
    ∷ (codes "AZ", codes "Azerbaijan")
    ∷ (codes "BA", codes "Bosnia and Herzegovina")
    ∷ (codes "BD", codes "Bangladesh")
    ∷ (codes "BE", codes "Belgium")
    ∷ (codes "BG", codes "Bulgaria")
    ∷ (codes "BM", codes "Bermuda")
    ∷ (codes "BN", codes "Brunei")
    ∷ (codes "BO", codes "Bolivia")
    ∷ (codes "BR", codes "Brazil")
    ∷ (codes "BS", codes "Bahamas")
    ∷ (codes "BT", codes "Bhutan")
    ∷ (codes "BZ", codes "Belize")
    ∷ (codes "CA", codes "Canada")
    ∷ (codes "CH", codes "Switzerland")
    ∷ (codes "CL", codes "Chile")
    ∷ (codes "CO", codes "Colombia")
    ∷ (codes "CR", codes "Costa Rica")
    ∷ (codes "CY", codes "Cyprus")
    ∷ (codes "CZ", codes "Czech Republic")
    ∷ (codes "DE", codes "Germany")
    ∷ (codes "DK", codes "Denmark")
    ∷ (codes "DO", codes "Dominican Republic")
    ∷ (codes "DZ", codes "Algeria")
    ∷ (codes "EC", codes "Ecuador")
    ∷ (codes "EE", codes "Estonia")
    ∷ (codes "EG", codes "Egypt")
    ∷ (codes "ES", codes "Spain")
    ∷ (codes "FI", codes "Finland")
    ∷ (codes "FR", codes "France")
    ∷ (codes "GE", codes "Georgia")
    ∷ (codes "GH", codes "Ghana")
    ∷ (codes "GR", codes "Greece")
    ∷ (codes "GT", codes "Guatemala")
    ∷ (codes "HK", codes "Hong Kong")
    ∷ (codes "HN", codes "Honduras")
    ∷ (codes "HR", codes "Croatia")
    ∷ (codes "HT", codes "Haiti")
    ∷ (codes "HU", codes "Hungary")
    ∷ (codes "ID", codes "Indonesia")
    ∷ (codes "IE", codes "Ireland")
    ∷ (codes "IL", codes "Israel")
    ∷ (codes "IM", codes "Isle of Man")
    ∷ (codes "IN", codes "India")
    ∷ (codes "IS", codes "Iceland")
    ∷ (codes "IT", codes "Italy")
    ∷ (codes "JE", codes "Jersey")
    ∷ (codes "JM", codes "Jamaica")
    ∷ (codes "JO", codes "Jordan")
    ∷ (codes "JP", codes "Japan")
    ∷ (codes "KE", codes "Kenya")
    ∷ (codes "KH", codes "Cambodia")
    ∷ (codes "KR", codes "South Korea")
    ∷ (codes "KY", codes "Cayman Islands")
    ∷ (codes "KZ", codes "Kazakhstan")
    ∷ (codes "LA", codes "Laos")
    ∷ (codes "LB", codes "Lebanon")
    ∷ (codes "LI", codes "Liechtenstein")
    ∷ (codes "LK", codes "Sri Lanka")
    ∷ (codes "LT", codes "Lithuania")
    ∷ (codes "LU", codes "Luxembourg")
    ∷ (codes "LV", codes "Latvia")
    ∷ (codes "MA", codes "Morocco")
    ∷ (codes "MC", codes "Monaco")
    ∷ (codes "MD", codes "Moldova")
    ∷ (codes "ME", codes "Montenegro")
    ∷ (codes "MK", codes "North Macedonia")
    ∷ (codes "MM", codes "Myanmar")
    ∷ (codes "MN", codes "Mongolia")
    ∷ (codes "MO", codes "Macau")
    ∷ (codes "MT", codes "Malta")
    ∷ (codes "MX", codes "Mexico")
    ∷ (codes "MY", codes "Malaysia")
    ∷ (codes "NG", codes "Nigeria")
    ∷ (codes "NI", codes "Nicaragua")
    ∷ (codes "NL", codes "Netherlands")
    ∷ (codes "NO", codes "Norway")
    ∷ (codes "NP", codes "Nepal")
    ∷ (codes "NZ", codes "New Zealand")
    ∷ (codes "PA", codes "Panama")
    ∷ (codes "PE", codes "Peru")
    ∷ (codes "PG", codes "Papua New Guinea")
    ∷ (codes "PH", codes "Philippines")
    ∷ (codes "PK", codes "Pakistan")
    ∷ (codes "PL", codes "Poland")
    ∷ (codes "PR", codes "Puerto Rico")
    ∷ (codes "PT", codes "Portugal")
    ∷ (codes "PY", codes "Paraguay")
    ∷ (codes "RO", codes "Romania")
    ∷ (codes "RS", codes "Serbia")
    ∷ (codes "SA", codes "Saudi Arabia")
    ∷ (codes "SE", codes "Sweden")
    ∷ (codes "SG", codes "Singapore")
    ∷ (codes "SI", codes "Slovenia")
    ∷ (codes "SK", codes "Slovakia")
    ∷ (codes "TH", codes "Thailand")
    ∷ (codes "TR", codes "Turkey")
    ∷ (codes "TT", codes "Trinidad and Tobago")
    ∷ (codes "TW", codes "Taiwan")
    ∷ (codes "UA", codes "Ukraine")
    ∷ (codes "UK", codes "United Kingdom")
    ∷ (codes "US", codes "United States")
    ∷ (codes "UY", codes "Uruguay")
    ∷ (codes "VE", codes "Venezuela")
    ∷ (codes "VN", codes "Vietnam")
    ∷ (codes "ZA", codes "South Africa")
    ∷ []

-- The value of a key in a map.
look_up : Text → List (Text × Text) → Option Text
look_up key [] = none
look_up key ((k, v) ∷ kvs) = if text_eq key k then some v else look_up key kvs

-- `countryName`
pub country_name : Text → Option Text
unfolding country_names look_up
country_name code = look_up code country_names
