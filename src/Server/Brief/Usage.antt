-- ===== src/Server/Brief/Usage.antt =====
-- eLibrary/src/client/eLibrary_client_output.c: the texts of `briefEx`. A text is its bytes.
use Prim.Native.Char.{code}
use Prim.Native.String.{String}
use morning_projects.Common.{[], ◌∷◌, ◌++◌}
use morning_projects.Server.Bytes.{Text}

-- the bytes of a text
unfoldable pub bytes : String → Text
bytes String.[] = []
bytes (String.◌∷◌ c s) = code c ∷ bytes s

-- the text of BRIEF_EVT_HLP_VIEW
abbrev pub view_usage : Text
view_usage =
    bytes "Usage: view [option]... [target]\n"
    ++ bytes
        "\t\t\t\t\t\t\t\tList info of a user or books. Without any options or parameters, it gives a brief info about the current user.\n"
    ++ bytes "\n"
    ++ bytes
        "\t\t\t\t\t\t\t\t-b \t\tlist a book by name. Without any parameter, it gives all books the current user collect.\n"
    ++ bytes "\t\t\t\t\t\t\t\t-a\t\tlist books in alphabetical order. By default it is by date. \n"
    ++ bytes "\t\t\t\t                -g\t\tlist books in group.\n"
    ++ bytes
        "\t\t\t\t                -f\t\tlist a brief info for a friend of the current user. Without any parameter it shows all friends.\n"
    ++ bytes "\t\t\t\t                @eLibrary 2012"

-- the text of BRIEF_EVT_HLP_ADD
abbrev pub add_usage : Text
add_usage =
    bytes "Usage: add option [content] target\n"
    ++ bytes
        "\t\t\t\t                Add a book or some specific info to a book or, add a friend.\n"
    ++ bytes "\n"
    ++ bytes "\t\t\t\t                -b\t\tadd a book by name.\n"
    ++ bytes "\t\t\t\t                -d\t\tadd a description to a book.\n"
    ++ bytes "\t\t\t\t                -g\t\tgroup a book.\n"
    ++ bytes "\t\t\t\t                -f\t\tadd a friend.\n"
    ++ bytes "\t\t\t\t                @eLibrary 2012"

-- the text of BRIEF_EVT_HLP_RM
abbrev pub rm_usage : Text
rm_usage =
    bytes "Usage: remove option target\n"
    ++ bytes
        "\t\t\t\t                Remove a book from collection, or delete a friend. Note when removing a book, it does not actually delete the book.\n"
    ++ bytes "\n"
    ++ bytes "\t\t\t\t                -b\t\tremove a book by name.\n"
    ++ bytes "\t\t\t\t                -f\t\tremove a friend.\n"
    ++ bytes "\t\t\t\t                @eLibrary 2012"

-- the text of BRIEF_EVT_HLP_SEARCH
abbrev pub search_usage : Text
search_usage =
    bytes "Usage: search option target\n"
    ++ bytes "\t\t\t\t                Search a book, or search a user.\n"
    ++ bytes "\n"
    ++ bytes "\t\t\t\t                -b\t\tsearch a book.\n"
    ++ bytes "\t\t\t\t                -f\t\tsearch a user\n"
    ++ bytes "\t\t\t\t                @eLibrary 2012"

-- the text of BRIEF_EVT_HLP_WHATSUP
abbrev pub whatsup_usage : Text
whatsup_usage =
    bytes "Usage: whatsup [option] [target]\n"
    ++ bytes
        "\t\t\t\t                List recent activities. Without any options or parameters it shows activities of all the current user's and his friends'.\n"
    ++ bytes "\n"
    ++ bytes "\t\t\t\t                -f\t\tlist recent activities of a friend.\n"
    ++ bytes "\t\t\t\t\t\t\t\t@eLibrary 2012"

-- the text of BRIEF_EVT_HLP_WOW
abbrev pub wow_usage : Text
wow_usage =
    bytes "Usage: wow [option] [target]\n"
    ++ bytes "\t\t\t\t                Add a WOW tag to a book or view who WOWed this book. \n"
    ++ bytes
        "\t\t\t\t                Without any options or parameter it shows books WOWed recently.\n"
    ++ bytes "\t\t\t\t                \"wow target\", shall add a WOW tag to this book. \n"
    ++ bytes "\t\t\t\t                -f\t\tview the recently WOWed books by a friend.\n"
    ++ bytes "\t\t\t\t                -b\t\tview the WOWed history of a book\n"
    ++ bytes "\t\t\t\t                @eLibrary 2012"

-- the text of BRIEF_EVT_HLP_BUY
abbrev pub buy_usage : Text
buy_usage =
    bytes "Usage: buy [option] [target]\n"
    ++ bytes "\t\t\t\t                Add a BUY tag to a book or view who BUYed this book. \n"
    ++ bytes
        "\t\t\t\t                Without any options or parameter it shows books BUYed recently.\n"
    ++ bytes "\t\t\t\t                \"buy target\", shall add a BUY tag to this book. \n"
    ++ bytes "\t\t\t\t                -f\t\tview the recently BUYed books by a friend.\n"
    ++ bytes "\t\t\t\t                -b\t\tview the BUYed history of a book\n"
    ++ bytes "\t\t\t\t                @eLibrary 2012"

-- the text of BRIEF_EVT_HLP_MSG
abbrev pub msg_usage : Text
msg_usage =
    bytes "Usage: msg [option] [target]\n"
    ++ bytes
        "\t\t\t\t                View the msg inbox or send msg to a friend. Without any options or parameters it show the inbox of current user.\n"
    ++ bytes "\n"
    ++ bytes "\t\t\t\t                -s send a piece of message to a friend.\n"
    ++ bytes "\t\t\t\t                -f view all messages with this friend.\n"
    ++ bytes "\t\t\t\t                @eLibrary 2012"
